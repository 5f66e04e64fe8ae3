-- ===== src/Wire/Reader.antt =====
-- What the codec reads from and how it fails (wire/encode.go, wire/decode.go).
-- A reader is what an io.Reader over a finite buffer has left; errors keep what they left unread.
use bencoscar.Prelude.{
  ℕ, zero, suc, ◌≡◌, refl, ap, List, [], ◌∷◌, ◌++◌, length, take, drop, take-append, drop-append,
  length-append, arith, ltb, if◌then◌else◌,
}

-- The sentinel errors that the package tells apart by errors.Is, and its own messages.
-- `go_panic` is a run-time panic. `stuck` is no Go value: a loop of the model ran out of fuel.
pub data Error : Type 0 where
  eof unexpected_eof nil_snac non_optional_pointer optional_non_pointer : Error
  invalid_struct_tag unsupported_type missing_len_prefix pointer_not_final : Error
  invalid_value go_panic stuck : Error

pub data Result {ℓ} (A : Type ℓ) : Type ℓ where
  ok : A → Result A
  err : Error → Result A

pub data Read {ℓ} (A : Type ℓ) : Type ℓ where
  got : A → List ℕ → Read A
  fail : Error → List ℕ → Read A

abbrev pub Reader {ℓ} : Type ℓ → Type ℓ
Reader A = List ℕ → Read A

module _ {ℓ} {A : Type ℓ} where
  abbrev pub pure : A → Reader A
  pure a r = got a r

  abbrev pub throw : Error → Reader A
  throw e r = fail e r

  abbrev pub lift : Result A → Reader A
  lift (ok a) r = got a r
  lift (err e) r = fail e r

module _ {ℓ κ} {A : Type ℓ} {B : Type κ} where
  abbrev pub continue : Read A → (A → Reader B) → Read B
  continue (got a r) f = f a r
  continue (fail e r) f = fail e r

  infixl 5 ◌>>=◌ ◌>>◌
  abbrev pub ◌>>=◌ : Reader A → (A → Reader B) → Reader B
  ◌>>=◌ m f r = continue (m r) f

  abbrev pub ◌>>◌ : Reader A → Reader B → Reader B
  m >> n = m >>= λ _. n

  infixl 5 ◌>>=ᵉ◌
  abbrev pub ◌>>=ᵉ◌ : Result A → (A → Result B) → Result B
  ◌>>=ᵉ◌ (ok a) f = f a
  ◌>>=ᵉ◌ (err e) f = err e

-- io.ReadFull(r, buf) for len(buf) == n: EOF if nothing was there, ErrUnexpectedEOF if too little.
unfoldable pub read_full : ℕ → Reader (List ℕ)
read_full zero r = got [] r
read_full (suc n) [] = fail eof []
read_full (suc n) (b ∷ r) =
    if ltb (length r) n then fail unexpected_eof [] else got (b ∷ take n r) (drop n r)

-- A reader over a buffer that was cut out of the outer one: what it leaves is dropped.
unfoldable pub within {ℓ} : {A : Type ℓ} → List ℕ → Reader A → Reader A
within b m r = elim (m b) [ got a _ ↦ got a r | fail e _ ↦ fail e r ]

pub read_full-append : (xs r : List ℕ) → read_full (length xs) (xs ++ r) ≡ got xs r
unfolding read_full
read_full-append [] r = refl
read_full-append (x ∷ xs) r = rw (take-append, drop-append) (ground (arith, length-append xs r))

-- A chain that succeeds has succeeded at its first step.
pub bind-ok {ℓ κ} :
    {A : Type ℓ} {B : Type κ} (m : Result A) (k : A → Result B) (b : B)
    → (m >>=ᵉ k) ≡ ok b
    → (a : A) × (m ≡ ok a) × (k a ≡ ok b)
bind-ok (ok a) k b e = (a, refl, e)
bind-ok (err x) k b e = ground arith

result_or {ℓ} : {A : Type ℓ} → A → Result A → A
result_or d (ok a) = a
result_or d (err e) = d

pub ok_injective {ℓ} : {A : Type ℓ} {a b : A} → ok a ≡ ok b → a ≡ b
unfolding result_or
ok_injective {a = a} p = ap (result_or a) p
