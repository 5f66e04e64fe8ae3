-- ===== src/State/Feedbag/Keys.antt =====
-- What two items have in common if they match: the class, the name as it is compared, and the group
-- of a buddy.
use bencoscar.Prelude.{
  ℕ, ◌≡◌, refl, sym, ap, ◌∙◌, List, ◌∷◌, Bool, true, false, not, ◌&&◌, ◌==◌, inl, inr, arith,
  Bool-cases, bytes_eq, ==→eq, if◌then◌else◌,
}
use bencoscar.State.ScreenNames.{new_ident_screen_name}
use bencoscar.State.Feedbag.{FeedbagItem, has_screen_name, items_match}

abbrev pub compared_name : FeedbagItem → List ℕ
compared_name a = if has_screen_name a.class_id then new_ident_screen_name a.name else a.name

unfoldable pub key : FeedbagItem → List ℕ
key a = a.class_id ∷ (if a.class_id == 0 then a.group_id else 0) ∷ compared_name a

-- Two items match if they have the same key.
pub items_match-key : (a b : FeedbagItem) → items_match a b ≡ bytes_eq (key a) (key b)
unfolding items_match key
items_match-key a b = elim (Bool-cases (a.class_id == b.class_id)) [
  | inl t ↦ same t (==→eq a.class_id b.class_id t)
  | inr f ↦ rw f refl
]
  where
    groups :
        (c : Bool) (n : Bool)
        → (if not n then false else if c then a.group_id == b.group_id else true)
          ≡ ((if c then a.group_id else 0) == (if c then b.group_id else 0)) && n
    groups true true = ground arith
    groups true false = ground arith
    groups false true = refl
    groups false false = refl

    same :
        (a.class_id == b.class_id) ≡ true
        → a.class_id ≡ b.class_id
        → items_match a b ≡ bytes_eq (key a) (key b)
    same t e = elim (Bool-cases (has_screen_name a.class_id)) [
      | inl u ↦
          let v : has_screen_name b.class_id ≡ true = ap has_screen_name (sym e) ∙ u in
          rw (t, u, v, ap (λ z. z == 0) (sym e))
            (groups (a.class_id == 0)
              (bytes_eq (new_ident_screen_name a.name) (new_ident_screen_name b.name)))
      | inr u ↦
          let v : has_screen_name b.class_id ≡ false = ap has_screen_name (sym e) ∙ u in
          rw (t, u, v, ap (λ z. z == 0) (sym e)) (groups (a.class_id == 0) (bytes_eq a.name b.name))
    ]
