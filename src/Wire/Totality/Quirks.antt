-- ===== src/Wire/Totality/Quirks.antt =====
-- The readers for single clients end, and take a byte at least.
use bencoscar.Prelude.{
  ℕ, List, [], length, arith, Option, some, none, not, ◌&&◌, codes, bytes_eq, Bool-cases, inl, inr,
}
use package.text.Mathlib.Text.{◌==◌ as str_eq}
use bencoscar.Wire.Reader.{Reader, Read, got, fail, unexpected_eof, read_full, pure, ◌>>=◌}
use bencoscar.Wire.Words.{Order, w8, w16, read_uint}
use bencoscar.Wire.Types.{GoType, uint, slice, struct, end, field, Value}
use bencoscar.Wire.Decode.{
  TlvFields, mend_icq2003b, mend_qip2005, read_up_to, quirk_reader, quirk_element,
  unmarshal_slice_element, is_little,
}
use bencoscar.Wire.Totality.Progress.{
  Steps, Safe, Safe-bind, Safe-weaken, Safe-pure, Safe-read_uint, Safe-read_full,
}

abbrev pub AllSafe : {A : Type 0} → Option (Reader A) → Type 0
AllSafe none = Unit {0}
AllSafe (some m) = Safe 1 m

tlv-Safe :
    (o : Order) (body : ℕ → ℕ → Reader (List ℕ))
    → ((t n : ℕ) → Safe 0 (body t n))
    → Safe 1 (
        read_uint o w16 >>= (λ tag.
          read_uint o w16 >>= (λ n. body tag n >>= (λ b. pure {A = TlvFields} (tag, (b, tt))))))
tlv-Safe o body h = Safe-bind (read_uint o w16) _ 1 0 (Safe-read_uint o w16) (λ tag.
    Safe-weaken
      (read_uint o w16 >>= (λ n. body tag n >>= (λ b. pure {A = TlvFields} (tag, (b, tt))))) 1
      (Safe-bind (read_uint o w16) (λ n. body tag n >>= (λ b. pure {A = TlvFields} (tag, (b, tt))))
        1 0 (Safe-read_uint o w16)
        (λ n.
          Safe-bind (body tag n) (λ b. pure {A = TlvFields} (tag, (b, tt))) 0 0 (h tag n)
            (λ b. Safe-pure {A = TlvFields} (tag, (b, tt))))))

up_to_steps :
    (r : List ℕ) (n : ℕ) (x : Read (List ℕ))
    → Steps 0 n x
    → Steps 0 n
        (elim x [ got b r' ↦ got b r' | fail unexpected_eof r' ↦ got r [] | fail e r' ↦ fail e r' ])
up_to_steps r n (got b r') s = s
up_to_steps r n (fail unexpected_eof r') s = omega arith
up_to_steps r n (fail _ r') s = s

up_to_safe : (n : ℕ) → Safe 0 (read_up_to n)
unfolding read_up_to
up_to_safe n r = up_to_steps r (length r) (read_full n r) (Safe-read_full n r)

quirk_reader_safe : (q : List ℕ) (o : Order) → AllSafe (quirk_reader q o)
unfolding quirk_reader
quirk_reader_safe q o =
    elim (Bool-cases (bytes_eq q (codes "icq2003b_set_fullinfo") && is_little o)) [
      | inl e ↦ rw e (tlv-Safe o (λ t n. read_full (mend_icq2003b t n)) (λ t n. Safe-read_full _))
      | inr e ↦
          rw e (elim (Bool-cases (bytes_eq q (codes "qip_2005_search_by_uin2") && is_little o)) [
            | inl g ↦
                rw g (tlv-Safe o (λ t n. read_full (mend_qip2005 t n)) (λ t n. Safe-read_full _))
            | inr g ↦
                rw g
                  (elim (Bool-cases
                    (bytes_eq q (codes "jimm_locate_set_info") && not (is_little o))) [
                      | inl k ↦ rw k (tlv-Safe o (λ t n. read_up_to n) (λ t n. up_to_safe n))
                      | inr k ↦ rw k tt
                    ])
          ])
    ]

quirk_element_safe : (t : GoType) (q : List ℕ) (o : Order) → AllSafe (quirk_element t q o)
unfolding quirk_element
quirk_element_safe (struct name (field a (uint w16) (field b (slice (uint w8)) end))) q o =
    elim (Bool-cases (str_eq name "TLV")) [ inl e ↦ rw e (quirk_reader_safe q o) | inr e ↦ rw e tt ]
quirk_element_safe _ q o = tt

choose-Safe :
    {A : Type 0} (x : Option (Reader A)) (usual : Reader A)
    → AllSafe x
    → Safe 1 usual
    → Safe 1 (unmarshal_slice_element x usual)
unfolding unmarshal_slice_element
choose-Safe none usual h g = g
choose-Safe (some m) usual h g = h

pub Safe-element :
    (t : GoType) (q : List ℕ) (o : Order) (usual : Reader (Value t))
    → Safe 1 usual
    → Safe 1 (unmarshal_slice_element (quirk_element t q o) usual)
Safe-element t q o usual h = choose-Safe (quirk_element t q o) usual (quirk_element_safe t q o) h
