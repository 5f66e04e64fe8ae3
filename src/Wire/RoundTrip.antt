-- ===== src/Wire/RoundTrip.antt =====
-- Encoding and decoding against one another (wire/encode.go, wire/decode.go).
pub mod Rules
pub mod Prefixes
pub mod Shape
mod Strings
mod Eof
mod Kinds
mod Elements
mod Agree
use bencoscar.Prelude.{
  ℕ, ◌≡◌, refl, sym, ap, ◌∙◌, ◌⊎◌, inl, Bool, true, false, List, [], ◌++◌, length,
}
use bencoscar.Wire.Reader.{ok_injective, Error, Result, ok, err, Read, got, fail}
use bencoscar.Wire.Words.{Order}
use bencoscar.Wire.Tag.{no_tag}
use bencoscar.Wire.Types.{GoType, Value}
use bencoscar.Wire.Encode.{marshal}
use bencoscar.Wire.Decode.{unmarshal}
use Rules.{Codes}
use Shape.{Fits, is_pointer, is_closed, size_of}
use Agree.{kind-Codes}

got_injective : {A : Type 0} {a b : A} {r s : List ℕ} → got a r ≡ got b s → (a ≡ b) × (r ≡ s)
got_injective p = (cc, cc)

module _ (t : GoType) (o : Order) (v : Value t) (plain : is_pointer t ≡ false)
    (f : Fits t no_tag o v) where
  codes : Codes (marshal t o v) (unmarshal t o) (is_closed t no_tag) v (size_of t no_tag v)
  unfolding marshal unmarshal
  codes = kind-Codes t no_tag o v (sym plain) f

  -- A value that fits its message type is encoded without error, and decoding reads it back: in
  -- front of anything if the type delimits itself, and otherwise at the end of the input; nothing
  -- of what follows is taken. The type is no pointer, and to fit means: every tag parses, names no
  -- quirk of a client, and says `optional` exactly on the pointers, which point to structs; a
  -- struct has the byte order that it asks for, and only its last field may run to the end of the
  -- input; slices and arrays hold integers, arrays of them, or, in slices, structs that delimit
  -- themselves; every string has a prefix, and no null byte if it is null-terminated; what is read
  -- to the end of a buffer or of the input begins with a byte that must be there; and every
  -- integer, length and count is below the bound of its width, or of its prefix of one or two
  -- bytes.
  pub unmarshal-marshal :
      (bytes : List ℕ) × (marshal t o v ≡ ok bytes)
      × ((r : List ℕ)
          → (is_closed t no_tag ≡ true) ⊎ (r ≡ [])
          → unmarshal t o (bytes ++ r) ≡ got v r)
  unmarshal-marshal = (codes.bytes, codes.writes, codes.reads)

  -- The encoding of such a value has the length that its type and its parts add up to.
  pub length-marshal :
      (bytes : List ℕ) → marshal t o v ≡ ok bytes → length bytes ≡ size_of t no_tag v
  length-marshal bytes e = rw (← ok_injective (sym codes.writes ∙ e)) codes.sized

-- Two values of one type that delimits itself, both of which fit it as unmarshal-marshal asks, are
-- equal if an input can begin with the encodings of both: for values that fit, the encoding is
-- injective, and no encoding is a proper prefix of another.
pub marshal_prefix_free :
    (t : GoType) (o : Order) (v w : Value t) (a b r s : List ℕ)
    → is_pointer t ≡ false
    → is_closed t no_tag ≡ true
    → Fits t no_tag o v
    → Fits t no_tag o w
    → marshal t o v ≡ ok a
    → marshal t o w ≡ ok b
    → a ++ r ≡ b ++ s
    → (v ≡ w) × (r ≡ s)
marshal_prefix_free t o v w a b r s p c f g ea eb e =
    let (x, ex, rx) = unmarshal-marshal t o v p f in
    let (y, ey, ry) = unmarshal-marshal t o w p g in
    got_injective (
      sym (rx r (inl c))
      ∙ ap (unmarshal t o) (
          ap (λ z. z ++ r) (ok_injective (sym ex ∙ ea))
          ∙ e
          ∙ ap (λ z. z ++ s) (ok_injective (sym eb ∙ ey)))
      ∙ ry s (inl c))
