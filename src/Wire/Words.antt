-- ===== src/Wire/Words.antt =====
-- encoding/binary: unsigned integers in either byte order.
use mathlib.Core.List.{reverse, reverse-cons, reverse-reverse}
use native.Mathlib.Nat.{pow-suc}
use bencoscar.Prelude.{
  ℕ, zero, suc, ◌+◌, ◌*◌, ◌/◌, ◌%◌, ◌^◌, ◌<◌, ◌≡◌, refl, ap, ◌∙◌, List, [], ◌∷◌, ◌++◌, length,
  length-append, take, drop, take-append, All-append, drop-append, arith, All,
}
use bencoscar.Wire.Reader.{Reader, got, read_full, read_full-append, pure, ◌>>=◌}

pub data Order : Type 0 where
  big little : Order

pub data Width : Type 0 where
  w8 w16 w32 w64 : Width

-- The number of bytes of a width.
abbrev pub size : Width → ℕ
size w8 = 1
size w16 = 2
size w32 = 4
size w64 = 8

abbrev pub modulus : Width → ℕ
modulus w8 = 0x100
modulus w16 = 0x1_0000
modulus w32 = 0x1_0000_0000
modulus w64 = 0x1_0000_0000_0000_0000

-- k bytes, the lowest first.
unfoldable pub put_little : ℕ → ℕ → List ℕ
put_little zero n = []
put_little (suc k) n = (n % 256) ∷ put_little k (n / 256)

unfoldable pub get_little : List ℕ → ℕ
get_little [] = 0
get_little (b ∷ bs) = b + 256 * get_little bs

unfoldable pub put_uint : Order → Width → ℕ → List ℕ
unfolding put_little
put_uint little w n = put_little (size w) n
put_uint big w n = reverse (put_little (size w) n)

unfoldable pub get_uint : Order → List ℕ → ℕ
unfolding get_little
get_uint little bs = get_little bs
get_uint big bs = get_little (reverse bs)

-- binary.Read into an unsigned integer.
unfoldable pub read_uint : Order → Width → Reader ℕ
unfolding read_full get_uint
read_uint o w = do bs ← read_full (size w); pure (get_uint o bs)

get-put_little : (k n : ℕ) → n < 256 ^ k → get_little (put_little k n) ≡ n
unfolding get_little put_little
get-put_little zero n h = omega arith
get-put_little (suc k) n h =
    let h' = rw pow-suc at h in omega (arith, get-put_little k (n / 256) (omega arith))

length-put_little : (k n : ℕ) → length (put_little k n) ≡ k
unfolding put_little
length-put_little zero n = refl
length-put_little (suc k) n = ap suc (length-put_little k (n / 256))

length-reverse {ℓ} : {A : Type ℓ} (xs : List A) → length (reverse xs) ≡ length xs
length-reverse [] = refl
length-reverse (x ∷ xs) =
    rw reverse-cons (omega (arith, length-append (reverse xs) (x ∷ []), length-reverse xs))

modulus-eq : (w : Width) → modulus w ≡ 256 ^ size w
modulus-eq w8 = refl
modulus-eq w16 = refl
modulus-eq w32 = refl
modulus-eq w64 = refl

pub length-put_uint : (o : Order) (w : Width) (n : ℕ) → length (put_uint o w n) ≡ size w
unfolding put_uint
length-put_uint little w n = length-put_little (size w) n
length-put_uint big w n = length-reverse _ ∙ length-put_little (size w) n

pub get-put_uint : (o : Order) (w : Width) (n : ℕ) → n < modulus w → get_uint o (put_uint o w n) ≡ n
unfolding put_uint get_uint
get-put_uint little w n h = get-put_little (size w) n (rw (← modulus-eq w) h)
get-put_uint big w n h = rw reverse-reverse (get-put_little (size w) n (rw (← modulus-eq w) h))

-- An integer that fits its width is read back, whatever follows it.
pub read-put_uint :
    (o : Order) (w : Width) (n : ℕ) (r : List ℕ)
    → n < modulus w
    → read_uint o w (put_uint o w n ++ r) ≡ got n r
unfolding read_uint
read-put_uint o w n r h =
    rw (← length-put_uint o w n) (rw read_full-append (ap (λ m. got m r) (get-put_uint o w n h)))

pub take-put_uint :
    (o : Order) (w : Width) (n : ℕ) (r : List ℕ)
    → take (size w) (put_uint o w n ++ r) ≡ put_uint o w n
take-put_uint o w n r = rw (← length-put_uint o w n) (take-append (put_uint o w n) r)

pub drop-put_uint :
    (o : Order) (w : Width) (n : ℕ) (r : List ℕ) → drop (size w) (put_uint o w n ++ r) ≡ r
drop-put_uint o w n r = rw (← length-put_uint o w n) (drop-append (put_uint o w n) r)

abbrev pub Bytes : List ℕ → Type 0
Bytes = All (λ b. b < 0x100)

pub Bytes-append : (xs ys : List ℕ) → Bytes xs → Bytes ys → Bytes (xs ++ ys)
Bytes-append = All-append (λ b. b < 0x100)

reverse-Bytes : (xs : List ℕ) → Bytes xs → Bytes (reverse xs)
reverse-Bytes [] h = tt
reverse-Bytes (x ∷ xs) (h, hs) =
    rw reverse-cons (Bytes-append (reverse xs) (x ∷ []) (reverse-Bytes xs hs) (h, tt))

put_little-Bytes : (k n : ℕ) → Bytes (put_little k n)
unfolding put_little
put_little-Bytes zero n = tt
put_little-Bytes (suc k) n = (omega arith, put_little-Bytes k (n / 256))

pub put_uint-Bytes : (o : Order) (w : Width) (n : ℕ) → Bytes (put_uint o w n)
unfolding put_uint
put_uint-Bytes little w n = put_little-Bytes (size w) n
put_uint-Bytes big w n = reverse-Bytes (put_little (size w) n) (put_little-Bytes (size w) n)
