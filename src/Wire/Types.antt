-- ===== src/Wire/Types.antt =====
-- The Go types that the codec walks by reflection, and their values.
use bencoscar.Prelude.{ℕ, Option, List, none, some, codes, String}
use bencoscar.Wire.Words.{Width, w8, w16}

-- A struct has its name, since the codec looks at it, and for each field its tag and its type.
-- `unsupported` stands for the kinds that neither the codec nor encoding/binary takes (maps,
-- functions, channels).
mutual
  pub data GoType : Type 0 where
    uint : Width → GoType
    array : ℕ → GoType → GoType
    slice : GoType → GoType
    string : GoType
    struct : String → Fields → GoType
    pointer : GoType → GoType
    unsupported : GoType

  pub data Fields : Type 0 where
    end : Fields
    field : Option (List ℕ) → GoType → Fields → Fields

-- The values of a type. An array has as many elements as its type says (`Fits` in RoundTrip).
abbrev mutual
  pub Value : GoType → Type 0
  Value (uint w) = ℕ
  Value (array n t) = List (Value t)
  Value (slice t) = List (Value t)
  Value string = List ℕ
  Value (struct name fs) = FieldValues fs
  Value (pointer t) = Option (Value t)
  Value unsupported = Unit {0}

  pub FieldValues : Fields → Type 0
  FieldValues end = Unit {0}
  FieldValues (field tag t fs) = Value t × FieldValues fs

-- The `oscar` tags that the message types use.
abbrev pub plain : Option (List ℕ)
plain = none

abbrev pub len8 : Option (List ℕ)
len8 = some (codes "len_prefix=uint8")

abbrev pub len16 : Option (List ℕ)
len16 = some (codes "len_prefix=uint16")

abbrev pub count16 : Option (List ℕ)
count16 = some (codes "count_prefix=uint16")

-- wire.TLV
abbrev pub tlv_type : GoType
tlv_type = struct "TLV" (field plain (uint w16) (field len16 (slice (uint w8)) end))
