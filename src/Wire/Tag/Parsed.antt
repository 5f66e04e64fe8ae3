-- ===== src/Wire/Tag/Parsed.antt =====
-- What parseOSCARTag can return.
use bencoscar.Prelude.{
  ℕ, ◌≡◌, refl, List, [], ◌∷◌, Bool, Option, some, none, ◌⊎◌, inl, inr, codes, bytes_eq,
  if◌then◌else◌, Bool-cases,
}
use bencoscar.Wire.Reader.{Error, Result, ok, err, invalid_struct_tag, ◌>>=ᵉ◌}
use bencoscar.Wire.Words.{Width, w8, w16}
use bencoscar.Wire.Tag.{
  OscarTag, no_tag, prefix_kind, set_value, set_flag, parse_split, parse_pair, parse_pairs,
  one_prefix, split, parse_oscar_tag, split_two, trim_space,
}

abbrev Narrow : Option Width → Type 0
Narrow none = Unit {0}
Narrow (some w) = (w ≡ w8) ⊎ (w ≡ w16)

-- Prefixes have one or two bytes.
abbrev IsNarrow : OscarTag → Type 0
IsNarrow t = Narrow t.count_prefix × Narrow t.len_prefix

-- The outcome of a step: a tag with narrow prefixes, or the one error.
abbrev Outcome : Result OscarTag → Type 0
Outcome (ok t) = IsNarrow t
Outcome (err e) = e ≡ invalid_struct_tag

prefix_kind-Outcome :
    (v : List ℕ) (f : Width → OscarTag)
    → IsNarrow (f w8)
    → IsNarrow (f w16)
    → Outcome (prefix_kind v >>=ᵉ (λ w. ok (f w)))
unfolding prefix_kind
prefix_kind-Outcome v f a b = elim (Bool-cases (bytes_eq v (codes "uint8"))) [
  | inl e ↦ rw e a
  | inr e ↦
      rw e (elim (Bool-cases (bytes_eq v (codes "uint16"))) [ inl g ↦ rw g b | inr g ↦ rw g refl ])
]

quirk_value-Outcome :
    (t : OscarTag) (v : List ℕ)
    → IsNarrow t
    → Outcome (
        if bytes_eq v []
        then err invalid_struct_tag
        else if bytes_eq t.quirk []
        then ok (record t { quirk = v })
        else err invalid_struct_tag)
quirk_value-Outcome t v h = elim (Bool-cases (bytes_eq v [])) [
  | inl e ↦ rw e refl
  | inr e ↦ rw e (elim (Bool-cases (bytes_eq t.quirk [])) [ inl g ↦ rw g h | inr g ↦ rw g refl ])
]

set_value-Outcome : (t : OscarTag) (k v : List ℕ) → IsNarrow t → Outcome (set_value t k v)
unfolding set_value
set_value-Outcome t k v h = elim (Bool-cases (bytes_eq k (codes "len_prefix"))) [
  | inl e ↦ rw e (
      prefix_kind-Outcome v (λ w. record t { len_prefix = some w }) (h.0, inl refl) (h.0, inr refl))
  | inr e ↦ rw e (elim (Bool-cases (bytes_eq k (codes "count_prefix"))) [
    | inl g ↦ rw g (
        prefix_kind-Outcome v (λ w. record t { count_prefix = some w }) (inl refl, h.1)
          (inr refl, h.1))
    | inr g ↦ rw g (elim (Bool-cases (bytes_eq k (codes "quirk"))) [
      | inl q ↦ rw q (quirk_value-Outcome t v h)
      | inr q ↦ rw q refl
    ])
  ])
]

set_flag-Outcome : (t : OscarTag) (k : List ℕ) → IsNarrow t → Outcome (set_flag t k)
unfolding set_flag
set_flag-Outcome t k h = elim (Bool-cases (bytes_eq k (codes "optional"))) [
  | inl e ↦ rw e h
  | inr e ↦
      rw e
        (elim (Bool-cases (bytes_eq k (codes "nullterm"))) [ inl g ↦ rw g h | inr g ↦ rw g refl ])
]

parse_split-Outcome :
    (t : OscarTag) (p : List ℕ × Option (List ℕ)) → IsNarrow t → Outcome (parse_split t p)
unfolding parse_split
parse_split-Outcome t (k, some v) h = set_value-Outcome t (trim_space k) (trim_space v) h
parse_split-Outcome t (k, none) h = set_flag-Outcome t (trim_space k) h

parse_pair-Outcome : (t : OscarTag) (kv : List ℕ) → IsNarrow t → Outcome (parse_pair t kv)
unfolding parse_pair
parse_pair-Outcome t kv h = elim (Bool-cases (bytes_eq (trim_space kv) [])) [
  | inl e ↦ rw e h
  | inr e ↦ rw e (parse_split-Outcome t (split_two b'=' (trim_space kv)) h)
]

bind-Outcome :
    (x : Result OscarTag) (f : OscarTag → Result OscarTag)
    → Outcome x
    → ((t : OscarTag) → IsNarrow t → Outcome (f t))
    → Outcome (x >>=ᵉ f)
bind-Outcome (ok t) f h g = g t h
bind-Outcome (err e) f h g = h

parse_pairs-Outcome :
    (kvs : List (List ℕ)) (t : OscarTag) → IsNarrow t → Outcome (parse_pairs t kvs)
unfolding parse_pairs
parse_pairs-Outcome [] t h = h
parse_pairs-Outcome (kv ∷ kvs) t h =
    bind-Outcome (parse_pair t kv) (λ t'. parse_pairs t' kvs) (parse_pair-Outcome t kv h)
      (parse_pairs-Outcome kvs)

-- One prefix at most, of one or two bytes.
abbrev pub Prefixes : Option Width → Option Width → Type 0
Prefixes none none = Unit {0}
Prefixes none (some w) = (w ≡ w8) ⊎ (w ≡ w16)
Prefixes (some w) none = (w ≡ w8) ⊎ (w ≡ w16)
Prefixes (some _) (some _) = ⊥

abbrev pub ParsesTo : Result OscarTag → Type 0
ParsesTo (ok t) = Prefixes t.count_prefix t.len_prefix
ParsesTo (err e) = e ≡ invalid_struct_tag

one_prefix-ParsesTo :
    (c l : Option Width) (optional null_terminated : Bool) (quirk : List ℕ)
    → Narrow c
    → Narrow l
    → ParsesTo (
        one_prefix (record {
          count_prefix = c;
          len_prefix = l;
          optional = optional;
          null_terminated = null_terminated;
          quirk = quirk;
        }))
unfolding one_prefix
one_prefix-ParsesTo none none o n q hc hl = tt
one_prefix-ParsesTo none (some w) o n q hc hl = hl
one_prefix-ParsesTo (some w) none o n q hc hl = hc
one_prefix-ParsesTo (some w) (some u) o n q hc hl = refl

checked-ParsesTo : (x : Result OscarTag) → Outcome x → ParsesTo (x >>=ᵉ one_prefix)
checked-ParsesTo (ok t) h =
    one_prefix-ParsesTo t.count_prefix t.len_prefix t.optional t.null_terminated t.quirk h.0 h.1
checked-ParsesTo (err e) h = h

-- Whatever the struct tag, parseOSCARTag returns the error for invalid tags, or a tag with one
-- prefix at most, which is of one or two bytes: marshalUnsignedInt and unmarshalUnsignedInt never
-- panic on it.
pub parse_oscar_tag-Prefixes : (tag : Option (List ℕ)) → ParsesTo (parse_oscar_tag tag)
unfolding parse_oscar_tag
parse_oscar_tag-Prefixes none = tt
parse_oscar_tag-Prefixes (some val) =
    checked-ParsesTo _ (parse_pairs-Outcome (split b',' val) no_tag (tt, tt))

pub parse_error :
    (tag : Option (List ℕ)) (e : Error) → parse_oscar_tag tag ≡ err e → e ≡ invalid_struct_tag
parse_error tag e p = error_of (parse_oscar_tag tag) (parse_oscar_tag-Prefixes tag) p
  where
    error_of : (x : Result OscarTag) → ParsesTo x → x ≡ err e → e ≡ invalid_struct_tag
    error_of (ok t) h q = cc
    error_of (err d) h q = cc
