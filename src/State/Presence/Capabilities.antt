-- ===== src/State/Presence/Capabilities.antt =====
-- The capabilities of a session: the union of those of its instances, in order.
use bencoscar.Prelude.{
  ℕ, ◌≡◌, refl, sym, ap, ◌∙◌, List, [], ◌∷◌, Bool, true, false, not, ◌&&◌, ◌||◌, ◌<◌, ◌⊎◌, ==→eq,
  inl, inr, ◌==◌, ltb, bytes_eq, if◌then◌else◌, arith, Bool-cases,
}
use bencoscar.State.NotifyTxn.{is_named, put_names}
use bencoscar.State.NotifyTxn.Collected.{AllDistinct, is_named-put_names, put_names-kept, or_assoc}
use bencoscar.State.Presence.{
  Client, cap_before, insert_cap, sort_caps, union_caps, session_caps, has_cap,
}

-- At the first byte in which the two differ, the first has the smaller one; or it ends there.
abbrev pub IsBefore : List ℕ → List ℕ → Type 0
IsBefore x [] = ⊥
IsBefore [] (b ∷ y) = Unit {0}
IsBefore (a ∷ x) (b ∷ y) = (a < b) ⊎ ((a ≡ b) × IsBefore x y)

cap_before-IsBefore : (x y : List ℕ) → cap_before x y ≡ true → IsBefore x y
unfolding cap_before
cap_before-IsBefore [] [] h = absurd (ground (arith, h))
cap_before-IsBefore [] (b ∷ y) h = tt
cap_before-IsBefore (a ∷ x) [] h = absurd (ground (arith, h))
cap_before-IsBefore (a ∷ x) (b ∷ y) h = elim (Bool-cases (a == b)) [
  | inl t ↦ inr (
    ==→eq a b t,
    cap_before-IsBefore x y (ap (λ z. if not z then ltb a b else cap_before x y) (sym t) ∙ h),
  )
  | inr f ↦
      let less : ltb a b ≡ true = ap (λ z. if not z then ltb a b else cap_before x y) (sym f) ∙ h in
      inl (ground (arith, less))
]

-- Each is before the next.
abbrev pub IsOrdered : List (List ℕ) → Type 0
IsOrdered [] = Unit {0}
IsOrdered (c ∷ []) = Unit {0}
IsOrdered (c ∷ d ∷ ds) = IsBefore c d × IsOrdered (d ∷ ds)

-- Some instance has it.
abbrev pub is_offered : List ℕ → List Client → Bool
is_offered n [] = false
is_offered n (c ∷ cs) = is_named n c.capabilities || is_offered n cs

before_total :
    (x y : List ℕ) → cap_before x y ≡ false → bytes_eq y x ≡ false → cap_before y x ≡ true
unfolding cap_before
before_total [] [] h k = absurd (ground (arith, k))
before_total [] (b ∷ y) h k = absurd (ground (arith, h))
before_total (a ∷ x) [] h k = refl
before_total (a ∷ x) (b ∷ y) h k = elim (Bool-cases (a == b)) [
  | inl t ↦
      let back : (b == a) ≡ true = ground (arith, t) in
      rw back (
        before_total x y (ap (λ z. if not z then ltb a b else cap_before x y) (sym t) ∙ h)
          (ap (λ z. z && bytes_eq y x) (sym back) ∙ k))
  | inr f ↦
      let less : ltb a b ≡ false =
        ap (λ z. if not z then ltb a b else cap_before x y) (sym f) ∙ h in
      let apart : (b == a) ≡ false = ground (arith, f) in
      let more : ltb b a ≡ true = ground (arith, less, f) in rw (apart, more) refl
]

-- A name that is not in a list is not its first, nor in the rest.
named_not :
    (c e : List ℕ) (ds : List (List ℕ))
    → is_named c (e ∷ ds) ≡ false
    → (bytes_eq e c ≡ false) × (is_named c ds ≡ false)
named_not c e ds h = go (bytes_eq e c) (is_named c ds) h
  where
    go : (a b : Bool) → (if a then true else b) ≡ false → (a ≡ false) × (b ≡ false)
    go true b h = absurd (ground (arith, h))
    go false b h = (refl, h)

insert_under :
    (d c : List ℕ) (ds : List (List ℕ))
    → IsBefore d c
    → is_named c ds ≡ false
    → IsOrdered (d ∷ ds)
    → IsOrdered (d ∷ insert_cap c ds)
unfolding insert_cap
insert_under d c [] h n o = (h, tt)
insert_under d c (e ∷ ds) h n o = elim (Bool-cases (cap_before c e)) [
  | inl t ↦ rw t (h, (cap_before-IsBefore c e t, o.1))
  | inr f ↦
      let (ne, nr) = named_not c e ds n in
      rw f (o.0, insert_under e c ds (cap_before-IsBefore e c (before_total c e f ne)) nr o.1)
]

insert_cap-IsOrdered :
    (c : List ℕ) (ds : List (List ℕ))
    → is_named c ds ≡ false
    → IsOrdered ds
    → IsOrdered (insert_cap c ds)
unfolding insert_cap
insert_cap-IsOrdered c [] n o = tt
insert_cap-IsOrdered c (e ∷ ds) n o = elim (Bool-cases (cap_before c e)) [
  | inl t ↦ rw t (cap_before-IsBefore c e t, o)
  | inr f ↦
      let (ne, nr) = named_not c e ds n in
      rw f (insert_under e c ds (cap_before-IsBefore e c (before_total c e f ne)) nr o)
]

is_named-insert_cap :
    (n c : List ℕ) (ds : List (List ℕ)) → is_named n (insert_cap c ds) ≡ is_named n (c ∷ ds)
unfolding insert_cap
is_named-insert_cap n c [] = refl
is_named-insert_cap n c (d ∷ ds) = elim (Bool-cases (cap_before c d)) [
  | inl t ↦ rw t refl
  | inr f ↦ rw f (
      ap (λ z. if bytes_eq d n then true else z) (is_named-insert_cap n c ds)
      ∙ swap (bytes_eq d n) (bytes_eq c n))
]
  where
    swap :
        (a b : Bool)
        → (if a then true else if b then true else is_named n ds)
          ≡ (if b then true else if a then true else is_named n ds)
    swap true true = refl
    swap true false = refl
    swap false true = refl
    swap false false = refl

is_named-sort_caps : (n : List ℕ) (cs : List (List ℕ)) → is_named n (sort_caps cs) ≡ is_named n cs
unfolding sort_caps
is_named-sort_caps n [] = refl
is_named-sort_caps n (c ∷ cs) =
    is_named-insert_cap n c (sort_caps cs)
    ∙ ap (λ z. if bytes_eq c n then true else z) (is_named-sort_caps n cs)

sort_caps-IsOrdered : (cs : List (List ℕ)) → AllDistinct cs → IsOrdered (sort_caps cs)
unfolding sort_caps
sort_caps-IsOrdered [] d = tt
sort_caps-IsOrdered (c ∷ cs) (n, d) =
    insert_cap-IsOrdered c (sort_caps cs) (is_named-sort_caps c cs ∙ n) (sort_caps-IsOrdered cs d)

union_caps-both :
    (n : List ℕ) (cs : List Client) (caps : List (List ℕ))
    → AllDistinct caps
    → AllDistinct (union_caps cs caps)
      × (is_named n (union_caps cs caps) ≡ (is_named n caps || is_offered n cs))
unfolding union_caps
union_caps-both n [] caps d = (d, or_nothing (is_named n caps))
  where
    or_nothing : (a : Bool) → a ≡ (a || false)
    or_nothing true = refl
    or_nothing false = refl
union_caps-both n (c ∷ cs) caps d =
    let (e, l) = put_names-kept c.capabilities caps d in
    let (f, m) = union_caps-both n cs (put_names c.capabilities caps) e in
    (
      f,
      m
          ∙ ap (λ z. z || is_offered n cs) (is_named-put_names n c.capabilities caps)
          ∙ or_assoc (is_named n caps) (is_named n c.capabilities) (is_offered n cs),
    )

-- Caps returns the capabilities in strictly rising order, the first byte in which two differ deciding,
-- and those that some instance has: HasCap says whether an instance has one.
pub session_caps-IsOrdered :
    (n : List ℕ) (cs : List Client)
    → IsOrdered (session_caps cs)
      × (is_named n (session_caps cs) ≡ is_offered n cs)
      × (has_cap n cs ≡ is_offered n cs)
unfolding session_caps has_cap
session_caps-IsOrdered n cs =
    let (d, m) = union_caps-both n cs [] tt in
    let named : is_named n (session_caps cs) ≡ is_offered n cs =
      is_named-sort_caps n (union_caps cs []) ∙ m in
    (sort_caps-IsOrdered (union_caps cs []) d, named, named)
