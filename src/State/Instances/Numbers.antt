-- ===== src/State/Instances/Numbers.antt =====
-- The number of a new instance.
use bencoscar.Prelude.{
  ℕ, zero, suc, ◌+◌, ◌≤◌, ◌<◌, ◌≡◌, ◌==◌, refl, sym, List, true, false, arith, Bool-cases, inl, inr,
}
use bencoscar.Wire.Reader.{ok_injective, Result, ok, err, Error}
use bencoscar.State.Instances.{has_key, search_num, generate_instance_num}

-- Every number from `low` to below `high` is taken.
abbrev pub Taken : List (ℕ × ℕ) → ℕ → ℕ → Type 0
Taken m low high = (k : ℕ) → low ≤ k → k < high → has_key m k ≡ true

next-Taken :
    (num high : ℕ) (m : List (ℕ × ℕ))
    → has_key m num ≡ true
    → Taken m (num + 1) high
    → Taken m num high
next-Taken num high m t h k lo hi = elim (Bool-cases (k == num)) [
  | inl e ↦ let q : k ≡ num = ground (arith, e) in rw q t
  | inr f ↦ h k (ground (arith, f)) hi
]

search_num-least :
    (rounds num : ℕ) (m : List (ℕ × ℕ)) (n : ℕ)
    → search_num rounds num m ≡ ok n
    → (num ≤ n) × (n < num + rounds) × (has_key m n ≡ false) × Taken m num n
unfolding search_num
search_num-least zero num m n e = ground arith
search_num-least (suc rounds) num m n e = elim (Bool-cases (has_key m num)) [
  | inl t ↦
      let (h1, h2, h3, h4) = search_num-least rounds (num + 1) m n (ground (arith, e, t)) in
      (omega arith, omega arith, h3, λ k lo hi. next-Taken num n m t h4 k lo hi)
  | inr f ↦
      let q : num ≡ n = ok_injective (ground (arith, e, f)) in
      (omega (arith, q), omega (arith, q), rw (sym q) f, λ k lo hi. ground (arith, q))
]

search_num-Taken :
    (rounds num : ℕ) (m : List (ℕ × ℕ)) (x : Error)
    → search_num rounds num m ≡ err x
    → Taken m num (num + rounds)
unfolding search_num
search_num-Taken zero num m x e = λ k lo hi. ground arith
search_num-Taken (suc rounds) num m x e = elim (Bool-cases (has_key m num)) [
  | inl t ↦
      next-Taken num (num + suc rounds) m t
        (λ k lo hi. search_num-Taken rounds (num + 1) m x (ground (arith, e, t)) k lo (omega arith))
  | inr f ↦ ground (arith, e, f)
]

-- What generateInstanceNum comes to: the least number from 1 to 255 that no instance has, or a
-- panic if there is none.
abbrev pub NumberOf : List (ℕ × ℕ) → Result ℕ → Type 0
NumberOf m (ok n) = (1 ≤ n) × (n < 256) × (has_key m n ≡ false) × Taken m 1 n
NumberOf m (err e) = Taken m 1 256

-- generateInstanceNum returns the least number from 1 to 255 that no instance of the session has,
-- and panics only if every one of them is taken.
pub generate_instance_num-NumberOf : (m : List (ℕ × ℕ)) → NumberOf m (generate_instance_num m)
unfolding generate_instance_num
generate_instance_num-NumberOf m = found (search_num 255 1 m) refl
  where
    found : (r : Result ℕ) → search_num 255 1 m ≡ r → NumberOf m r
    found (ok n) e = let (h1, h2, h3, h4) = search_num-least 255 1 m n e in (h1, h2, h3, h4)
    found (err x) e = search_num-Taken 255 1 m x e
