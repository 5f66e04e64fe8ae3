-- ===== src/Wire/Totality/Progress.antt =====
-- Readers that end, and that take a given number of bytes at least where they succeed.
use bencoscar.Prelude.{
  ℕ, zero, suc, ◌+◌, ◌≤◌, ◌≡◌, ◌≢◌, refl, List, [], ◌∷◌, Bool, true, false, length, arith,
  if◌then◌else◌, ltb, drop, Bool-cases, inl, inr, some, none,
}
use bencoscar.Wire.Reader.{
  Error, Result, ok, err, Read, got, fail, Reader, pure, throw, lift, continue, ◌>>=◌, stuck,
  go_panic, read_full, within,
}
use bencoscar.Wire.Words.{Order, Width, w8, w16, w32, w64, get_uint, read_uint}
use bencoscar.Wire.Decode.{unmarshal_unsigned_int, read_block, read_optional, is_eof, demand}
use bencoscar.Wire.Tag.{OscarTag}

-- From `n` bytes: success leaves at most `n - k`, failure is no lack of fuel and adds nothing.
abbrev pub Steps : {A : Type 0} → ℕ → ℕ → Read A → Type 0
Steps k n (got a r) = length r + k ≤ n
Steps k n (fail e r) = (e ≢ stuck) × (length r ≤ n)

abbrev pub Safe : {A : Type 0} → ℕ → Reader A → Type 0
Safe k m = (r : List ℕ) → Steps k (length r) (m r)

-- Steps after `i` bytes were taken.
Steps-after : {A : Type 0} (x : Read A) (i j m n : ℕ) → Steps j m x → m + i ≤ n → Steps (i + j) n x
Steps-after (got a r) i j m n s h = omega arith
Steps-after (fail e r) i j m n s h = (s.0, omega arith)

pub Steps-trans : {A : Type 0} (x : Read A) (i m n : ℕ) → Steps 0 m x → m + i ≤ n → Steps i n x
Steps-trans (got a r) i m n s h = omega arith
Steps-trans (fail e r) i m n s h = (s.0, omega arith)

pub Steps-weaken : {A : Type 0} (x : Read A) (k n : ℕ) → Steps k n x → Steps 0 n x
Steps-weaken (got a r) k n s = omega arith
Steps-weaken (fail e r) k n s = s

bind-Steps :
    {A B : Type 0} (x : Read A) (f : A → Reader B) (i j n : ℕ)
    → Steps i n x
    → ((a : A) → Safe j (f a))
    → Steps (i + j) n (continue x f)
bind-Steps (got a r) f i j n s h = Steps-after (f a r) i j (length r) n (h a r) s
bind-Steps (fail e r) f i j n s h = s

pub Safe-throw : (A : Type 0) (e : Error) (k : ℕ) → e ≢ stuck → Safe {A = A} k (throw e)
Safe-throw A e k h r = (h, omega arith)

module _ {A : Type 0} where
  pub Safe-bind :
      {B : Type 0} (m : Reader A) (f : A → Reader B) (i j : ℕ)
      → Safe i m
      → ((a : A) → Safe j (f a))
      → Safe (i + j) (m >>= f)
  Safe-bind m f i j hm hf r = bind-Steps (m r) f i j (length r) (hm r) hf

  first-Steps :
      {B : Type 0} (x : Read A) (f : A → Reader B) (k n : ℕ)
      → Steps k n x
      → ((a : A) → Safe 0 (f a))
      → Steps k n (continue x f)
  first-Steps (got a r) f k n s h = Steps-trans (f a r) k (length r) n (h a r) s
  first-Steps (fail e r) f k n s h = s

  pub Safe-bind_first :
      {B : Type 0} (m : Reader A) (f : A → Reader B) (k : ℕ)
      → Safe k m
      → ((a : A) → Safe 0 (f a))
      → Safe k (m >>= f)
  Safe-bind_first m f k hm hf r = first-Steps (m r) f k (length r) (hm r) hf

  pub Safe-lift_bind :
      {B : Type 0} (x : Result A) (f : A → Reader B) (k : ℕ)
      → ((e : Error) → x ≡ err e → e ≢ stuck)
      → ((a : A) → x ≡ ok a → Safe k (f a))
      → Safe k (lift x >>= f)
  Safe-lift_bind (ok a) f k g h r = h a refl r
  Safe-lift_bind (err e) f k g h r = (g e refl, omega arith)

  pub Safe-if :
      (b : Bool) (m n : Reader A) (k : ℕ) → Safe k m → Safe k n → Safe k (if b then m else n)
  Safe-if true m n k h g = h
  Safe-if false m n k h g = g

  pub Safe-weaken : (m : Reader A) (k : ℕ) → Safe k m → Safe 0 m
  Safe-weaken m k h r = Steps-weaken (m r) k (length r) (h r)

  pub Safe-pure : (a : A) → Safe 0 (pure a)
  Safe-pure a r = omega arith

  pub Safe-lift : (x : Result A) → ((e : Error) → x ≡ err e → e ≢ stuck) → Safe 0 (lift x)
  Safe-lift (ok a) h r = omega arith
  Safe-lift (err e) h r = (h e refl, omega arith)

  pub Safe-demand : (tag : OscarTag) (m : Reader A) (k : ℕ) → Safe k m → Safe k (demand tag m)
  unfolding demand
  Safe-demand tag m k h r = elim (Bool-cases tag.optional) [
    | inl e ↦ rw e ((λ p. cc), omega arith)
    | inr e ↦ rw e (h r)
  ]

  within-Steps :
      (b : List ℕ) (x : Read A) (k n : ℕ) (r : List ℕ)
      → Steps k n x
      → Steps 0 (length r) (elim x [ got a _ ↦ got a r | fail e _ ↦ fail e r ])
  within-Steps b (got a _) k n r s = omega arith
  within-Steps b (fail e _) k n r s = (s.0, omega arith)

  -- Inside a buffer the outer input is left alone.
  pub Safe-within : (b : List ℕ) (m : Reader A) → Steps 0 (length b) (m b) → Safe 0 (within b m)
  unfolding within
  Safe-within b m h r = within-Steps b (m b) 0 (length b) r h

  optional-Steps :
      (x : Read A) (n : ℕ)
      → Steps 0 n x
      → Steps 0 n (elim x [
        | got a r' ↦ got (some a) r'
        | fail e r' ↦ if is_eof e then got none r' else fail e r'
      ])
  optional-Steps (got a r) n s = s
  optional-Steps (fail e r) n s = elim (Bool-cases (is_eof e)) [
    | inl p ↦ rw p (omega arith)
    | inr p ↦ rw p s
  ]

  pub Safe-optional : (m : Reader A) → Safe 0 m → Safe 0 (read_optional m)
  unfolding read_optional
  Safe-optional m h r = optional-Steps (m r) (length r) (h r)

length-drop-le : (n : ℕ) (r : List ℕ) → length (drop n r) ≤ length r
length-drop-le zero r = omega arith
length-drop-le (suc n) [] = omega arith
length-drop-le (suc n) (b ∷ r) = omega (arith, length-drop-le n r)

pub Safe-read_full : (n : ℕ) → Safe 0 (read_full n)
unfolding read_full
Safe-read_full zero r = omega arith
Safe-read_full (suc n) [] = ((λ p. cc), omega arith)
Safe-read_full (suc n) (b ∷ r) = elim (Bool-cases (ltb (length r) n)) [
  | inl e ↦ rw e ((λ p. cc), omega arith)
  | inr e ↦ rw e (omega (arith, length-drop-le n r))
]

-- At least one byte is taken where one is asked for.
Steps-read_full : (n : ℕ) (r : List ℕ) → Steps 1 (length r) (read_full (suc n) r)
unfolding read_full
Steps-read_full n [] = ((λ p. cc), omega arith)
Steps-read_full n (b ∷ r) = elim (Bool-cases (ltb (length r) n)) [
  | inl e ↦ rw e ((λ p. cc), omega arith)
  | inr e ↦ rw e (omega (arith, length-drop-le n r))
]

pub Safe-read_uint : (o : Order) (w : Width) → Safe 1 (read_uint o w)
unfolding read_uint
Safe-read_uint o w8 =
    Safe-bind (read_full 1) _ 1 0 (Steps-read_full 0) (λ a. Safe-pure (get_uint o a))
Safe-read_uint o w16 =
    Safe-bind (read_full 2) _ 1 0 (Steps-read_full 1) (λ a. Safe-pure (get_uint o a))
Safe-read_uint o w32 =
    Safe-bind (read_full 4) _ 1 0 (Steps-read_full 3) (λ a. Safe-pure (get_uint o a))
Safe-read_uint o w64 =
    Safe-bind (read_full 8) _ 1 0 (Steps-read_full 7) (λ a. Safe-pure (get_uint o a))

pub Safe-int : (w : Width) (o : Order) → Safe 1 (unmarshal_unsigned_int w o)
unfolding unmarshal_unsigned_int
Safe-int w8 o = Safe-read_uint o w8
Safe-int w16 o = Safe-read_uint o w16
Safe-int w32 o = Safe-throw ℕ go_panic 1 (λ p. cc)
Safe-int w64 o = Safe-throw ℕ go_panic 1 (λ p. cc)

pub Safe-block : (w : Width) (o : Order) → Safe 1 (read_block w o)
unfolding read_block
Safe-block w o = Safe-bind (unmarshal_unsigned_int w o) _ 1 0 (Safe-int w o) (λ n. Safe-read_full n)
