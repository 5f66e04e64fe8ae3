-- ===== src/Wire/RoundTrip/Rules.antt =====
-- A writer and a reader that agree on a value, and the rules for each way to combine them.
use mathlib.Core.Bool.{false≢true}
use bencoscar.Prelude.{
  ℕ, zero, suc, ◌+◌, ◌≤◌, ◌<◌, ◌≡◌, refl, ◌⊎◌, inl, inr, List, [], ◌∷◌, ◌++◌, Bool, true, false,
  length, length-append, append_assoc, All, arith,
}
use bencoscar.Wire.Reader.{Result, ok, got, fail, Reader, pure, ◌>>=◌, eof}
use bencoscar.Wire.Words.{
  Order, Width, modulus, size, put_uint, length-put_uint, read_uint, read-put_uint,
}
use bencoscar.Wire.Encode.{◌then_write◌, write_each}
use bencoscar.Wire.Decode.{read_times, read_until_empty, read_until_eof}

-- `write` succeeds with `n` bytes, and `read` takes them back: whatever follows them if the format
-- delimits itself (`closed`), and otherwise where nothing follows.
pub record Codes {A : Type 0} (write : Result (List ℕ)) (read : Reader A) (closed : Bool) (a : A)
    (n : ℕ) : Type 0 where
  pub bytes : List ℕ
  pub writes : write ≡ ok bytes
  pub sized : length bytes ≡ n
  pub reads : (r : List ℕ) → (closed ≡ true) ⊎ (r ≡ []) → read (bytes ++ r) ≡ got a r

pub Codes-weaken :
    {A : Type 0} {write : Result (List ℕ)} {read : Reader A} {a : A} {n : ℕ} (c : Bool)
    → Codes write read true a n
    → Codes write read c a n
Codes-weaken c h = record {
  bytes = h.bytes;
  writes = h.writes;
  sized = h.sized;
  reads = λ r _. h.reads r (inl refl);
}

pub Codes-uint :
    (o : Order) (w : Width) (n : ℕ)
    → n < modulus w
    → Codes (ok (put_uint o w n)) (read_uint o w) true n (size w)
Codes-uint o w n h = record {
  bytes = put_uint o w n;
  writes = refl;
  sized = length-put_uint o w n;
  reads = λ r _. read-put_uint o w n r h;
}

-- One step of each loop.
module _ {A : Type 0} (m : Reader A) (a : A) (r r' r'' : List ℕ) (xs : List A) where
  times_step :
      (n : ℕ)
      → m r ≡ got a r'
      → read_times n m r' ≡ got xs r''
      → read_times (suc n) m r ≡ got (a ∷ xs) r''
  unfolding read_times
  times_step n e f = rw (e, read_times) (rw f)

  until_eof_step :
      (n : ℕ)
      → m r ≡ got a r'
      → read_until_eof n m r' ≡ got xs r''
      → read_until_eof (suc n) m r ≡ got (a ∷ xs) r''
  unfolding read_until_eof
  until_eof_step n e f = rw (e, read_until_eof) (rw f)

until_empty_step :
    {A : Type 0} (m : Reader A) (a : A) (r r' r'' : List ℕ) (xs : List A) (n : ℕ)
    → 0 < length r
    → m r ≡ got a r'
    → read_until_empty n m r' ≡ got xs r''
    → read_until_empty (suc n) m r ≡ got (a ∷ xs) r''
unfolding read_until_empty
until_empty_step m a [] r' r'' xs n h e f = absurd (omega arith)
until_empty_step m a (b ∷ r) r' r'' xs n h e f = rw (e, read_until_empty) (rw f)

unfoldable pub sum_map {ℓ} : {A : Type ℓ} → (A → ℕ) → List A → ℕ
sum_map f [] = 0
sum_map f (x ∷ xs) = f x + sum_map f xs

module _ {A : Type 0} (f : A → Result (List ℕ)) (m : Reader A) (s : A → ℕ) where
  abbrev pub Each : List A → Type 0
  Each = All (λ x. Codes (f x) m true x (s x))

  abbrev pub each_bytes : (xs : List A) → Each xs → List ℕ
  each_bytes [] h = []
  each_bytes (x ∷ xs) (h, hs) = h.bytes ++ each_bytes xs hs

  pub Each-writes : (xs : List A) (h : Each xs) → write_each f xs ≡ ok (each_bytes xs h)
  unfolding write_each
  Each-writes [] h = refl
  Each-writes (x ∷ xs) (h, hs) = rw (h.writes, Each-writes xs hs)

  pub Each-sized : (xs : List A) (h : Each xs) → length (each_bytes xs h) ≡ sum_map s xs
  unfolding sum_map
  Each-sized [] h = refl
  Each-sized (x ∷ xs) (h, hs) =
      omega (arith, length-append h.bytes (each_bytes xs hs), h.sized, Each-sized xs hs)

  Each-times :
      (xs : List A) (h : Each xs) (r : List ℕ)
      → read_times (length xs) m (each_bytes xs h ++ r) ≡ got xs r
  Each-times [] h r = unfold read_times in refl
  Each-times (x ∷ xs) (h, hs) r =
      rw (append_assoc h.bytes (each_bytes xs hs) r)
        (times_step m x _ _ r xs (length xs) (h.reads _ (inl refl)) (Each-times xs hs r))

  pub Each-until_eof :
      (xs : List A) (h : Each xs) (fuel : ℕ)
      → All (λ x. 0 < s x) xs
      → m [] ≡ fail eof []
      → length (each_bytes xs h) < fuel
      → read_until_eof fuel m (each_bytes xs h) ≡ got xs []
  Each-until_eof [] h zero p e lt = absurd (omega arith)
  Each-until_eof (x ∷ xs) h zero p e lt = absurd (omega arith)
  Each-until_eof [] h (suc fuel) p e lt = unfold read_until_eof in rw (e, read_until_eof)
  Each-until_eof (x ∷ xs) (h, hs) (suc fuel) p e lt =
      until_eof_step m x _ _ [] xs fuel (h.reads _ (inl refl)) (
        Each-until_eof xs hs fuel p.1 e
          (omega (arith, length-append h.bytes (each_bytes xs hs), h.sized, p.0)))

  pub Each-until_empty :
      (xs : List A) (h : Each xs) (fuel : ℕ)
      → All (λ x. 0 < s x) xs
      → length (each_bytes xs h) ≤ fuel
      → read_until_empty fuel m (each_bytes xs h) ≡ got xs []
  Each-until_empty [] h fuel p lt = unfold read_until_empty in refl
  Each-until_empty (x ∷ xs) (h, hs) zero p lt =
      absurd (omega (arith, length-append h.bytes (each_bytes xs hs), h.sized, p.0))
  Each-until_empty (x ∷ xs) (h, hs) (suc fuel) p lt =
      until_empty_step m x _ _ [] xs fuel
        (omega (arith, length-append h.bytes (each_bytes xs hs), h.sized, p.0))
        (h.reads _ (inl refl))
        (Each-until_empty xs hs fuel p.1
          (omega (arith, length-append h.bytes (each_bytes xs hs), h.sized, p.0)))

  -- A counted loop over elements that delimit themselves.
  pub Codes-each :
      (xs : List A)
      → Each xs
      → Codes (write_each f xs) (read_times (length xs) m) true xs (sum_map s xs)
  Codes-each xs h = record {
    bytes = each_bytes xs h;
    writes = Each-writes xs h;
    sized = Each-sized xs h;
    reads = λ r _. Each-times xs h r;
  }

-- Two formats, one behind the other; only the last one may be open.
pub Codes-pair :
    {A B : Type 0} {w v : Result (List ℕ)} {m : Reader A} {k : Reader B} {a : A} {b : B} {i j : ℕ}
    {c : Bool}
    → Codes w m true a i
    → Codes v k c b j
    → Codes (w then_write v) (m >>= (λ x. k >>= (λ y. pure {A = A × B} (x, y)))) c (a, b) (i + j)
Codes-pair {m = m} {k = k} h g = record {
  bytes = h.bytes ++ g.bytes;
  writes = rw (h.writes, g.writes);
  sized = omega (arith, length-append h.bytes g.bytes, h.sized, g.sized);
  reads = λ r d.
      rw (append_assoc h.bytes g.bytes r)
        (rw (h.reads (g.bytes ++ r) (inl refl)) (rw (g.reads r d)));
}

-- A format that delimits itself may stand where nothing follows.
pub Codes-open :
    {A : Type 0} {write : Result (List ℕ)} {read : Reader A} {c : Bool} {a : A} {n : ℕ}
    → Codes write read c a n
    → Codes write read false a n
Codes-open h = record {
  bytes = h.bytes;
  writes = h.writes;
  sized = h.sized;
  reads = λ r d. elim d [ inl e ↦ absurd (false≢true e) | inr e ↦ h.reads r (inr e) ];
}
