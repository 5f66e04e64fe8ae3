-- ===== src/Wire/RoundTrip/Prefixes.antt =====
-- The rules for values behind a length or a count, and for optional ones.
use mathlib.Core.Bool.{false≢true}
use native.Mathlib.Nat.{mod-eq_of_lt}
use bencoscar.Prelude.{
  ℕ, ◌+◌, ◌<◌, ◌≡◌, refl, inl, inr, List, [], ◌++◌, Bool, true, false, length, length-append,
  append_assoc, arith, some, none,
}
use bencoscar.Wire.Reader.{
  Result, ok, got, fail, Reader, ◌>>=◌, ◌>>=ᵉ◌, read_full-append, within, eof,
}
use bencoscar.Wire.Words.{Order, Width, w8, w16, w32, w64, modulus, size}
use bencoscar.Wire.Encode.{◌then_write◌, marshal_unsigned_int}
use bencoscar.Wire.Decode.{unmarshal_unsigned_int, read_block, read_optional}
use bencoscar.Wire.RoundTrip.Rules.{Codes, Codes-uint, Codes-open}

-- The widths that a length or a count may have.
abbrev pub is_small : Width → Bool
is_small w8 = true
is_small w16 = true
is_small w32 = false
is_small w64 = false

pub Codes-int :
    (w : Width) (n : ℕ) (o : Order)
    → is_small w ≡ true
    → n < modulus w
    → Codes (marshal_unsigned_int w n o) (unmarshal_unsigned_int w o) true n (size w)
unfolding marshal_unsigned_int unmarshal_unsigned_int
Codes-int w8 n o s h = rw (mod-eq_of_lt h) (Codes-uint o w8 n h)
Codes-int w16 n o s h = rw (mod-eq_of_lt h) (Codes-uint o w16 n h)
Codes-int w32 n o s h = cc
Codes-int w64 n o s h = cc

within_got :
    {A : Type 0} (read : Reader A) (b r r' : List ℕ) {a : A}
    → read b ≡ got a r'
    → within b read r ≡ got a r
unfolding within
within_got read b r r' e = rw (e, within)

module _ (w : Width) (o : Order) (s : is_small w ≡ true) where
  -- A buffer behind its length.
  pub Codes-block :
      (buf : List ℕ)
      → length buf < modulus w
      → Codes
          (marshal_unsigned_int w (length buf) o then_write ok buf)
          (read_block w o)
          true
          buf
          (size w + length buf)
  unfolding read_block
  Codes-block buf h =
      let int = Codes-int w (length buf) o s h in
      record {
        bytes = int.bytes ++ buf;
        writes = rw int.writes;
        sized = omega (arith, length-append int.bytes buf, int.sized);
        reads = λ r _.
            rw (append_assoc int.bytes buf r)
              (rw (int.reads (buf ++ r) (inl refl)) (read_full-append buf r));
      }

  -- What is in the buffer is read by a reader of its own, which may depend on the buffer.
  pub Codes-buffer :
      {A : Type 0} {write : Result (List ℕ)} {a : A} {n : ℕ} (read : List ℕ → Reader A)
      (buf : List ℕ)
      → write ≡ ok buf
      → length buf ≡ n
      → read buf buf ≡ got a []
      → n < modulus w
      → Codes
          (write >>=ᵉ (λ b. marshal_unsigned_int w (length b) o then_write ok b))
          (read_block w o >>= (λ b. within b (read b)))
          true
          a
          (size w + n)
  Codes-buffer read buf writes sized reads lt =
      let block = Codes-block buf (rw sized lt) in
      record {
        bytes = block.bytes;
        writes = rw writes block.writes;
        sized = rw (← sized) block.sized;
        reads = λ r _. rw (block.reads r (inl refl)) (within_got (read buf) buf r [] reads);
      }

read_optional-some :
    {A : Type 0} (m : Reader A) (r : List ℕ) {a : A} {r' : List ℕ}
    → m r ≡ got a r'
    → read_optional m r ≡ got (some a) r'
unfolding read_optional
read_optional-some m r e = rw (e, read_optional)

pub Codes-some :
    {A : Type 0} {write : Result (List ℕ)} {read : Reader A} {c : Bool} {a : A} {n : ℕ}
    → Codes write read c a n
    → Codes write (read_optional read) false (some a) n
Codes-some {read = read} h = Codes-open (record {
  bytes = h.bytes;
  writes = h.writes;
  sized = h.sized;
  reads = λ r d. read_optional-some read (h.bytes ++ r) (h.reads r d);
})

-- A nil pointer writes nothing, and is read back where the input has ended.
pub Codes-nil :
    {A : Type 0} (read : Reader A)
    → read [] ≡ fail eof []
    → Codes (ok []) (read_optional read) false none 0
Codes-nil read e = record {
  bytes = [];
  writes = refl;
  sized = refl;
  reads = λ r d. elim d [
    | inl f ↦ absurd (false≢true f)
    | inr f ↦ rw f (unfold read_optional in rw (e, read_optional))
  ];
}
