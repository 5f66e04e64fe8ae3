-- ===== src/State/Feedbag/GroupIds.antt =====
-- Entries that are no groups leave the IDs of the groups as they are.
use bencoscar.Prelude.{
  ℕ, ◌≡◌, refl, sym, ap, ◌∙◌, subst, List, [], ◌∷◌, ◌++◌, Option, none, some, Bool, false, ◌&&◌,
  ◌==◌, inl, inr, All, All-map, arith, Bool-cases, Option-cases, bytes_eq, bytes_eq→eq,
  if◌then◌else◌, update, update_same, update_other, ==→eq,
}
use bencoscar.State.Feedbag.{
  FeedbagItem, FeedbagList, is_equal, find_item, remove_first, contains, track_update, gen_id,
  delete_item, upsert_normalized, group_by_name,
}
use bencoscar.State.Feedbag.Keys.{key}
use bencoscar.State.Feedbag.Views.{IsValid, found-key, matching}
use bencoscar.State.Feedbag.Upsert.{every}

-- The ID of an item that is a group of the name.
abbrev pub id_if_group : List ℕ → FeedbagItem → Option ℕ
id_if_group n item =
    if (item.class_id == 1) && bytes_eq item.name n then some item.group_id else none

abbrev pub first_of : Option ℕ → Option ℕ → Option ℕ
first_of none o = o
first_of (some g) o = some g

unfoldable pub group_id_in : (ℕ → FeedbagItem) → List ℕ → List ℕ → Option ℕ
group_id_in heap [] n = none
group_id_in heap (r ∷ rs) n = first_of (id_if_group n (heap r)) (group_id_in heap rs n)

abbrev pub group_id_of : FeedbagList → List ℕ → Option ℕ
group_id_of f n = group_id_in f.heap f.items n

abbrev pub id_at : FeedbagList → Option ℕ → Option ℕ
id_at f none = none
id_at f (some g) = some (f.heap g).group_id

-- It is the ID of the group that groupByName finds.
pub group_by_name-group_id_of :
    (n : List ℕ) (f : FeedbagList) → id_at f (group_by_name n f) ≡ group_id_of f n
unfolding group_by_name group_id_in
group_by_name-group_id_of n f = go f.items
  where
    named : FeedbagItem → Bool
    named item = (item.class_id == 1) && bytes_eq item.name n

    go : (rs : List ℕ) → id_at f (find_item named f.heap rs) ≡ group_id_in f.heap rs n
    go [] = refl
    go (r ∷ rs) = elim (Bool-cases (named (f.heap r))) [ inl t ↦ rw t refl | inr e ↦ rw e (go rs) ]

pub group_id_in-same :
    (heap heap' : ℕ → FeedbagItem) (n : List ℕ) (rs : List ℕ)
    → All (λ r. id_if_group n (heap' r) ≡ id_if_group n (heap r)) rs
    → group_id_in heap' rs n ≡ group_id_in heap rs n
unfolding group_id_in
group_id_in-same heap heap' n [] h = refl
group_id_in-same heap heap' n (r ∷ rs) (h, hs) =
    ap (λ z. first_of z (group_id_in heap' rs n)) h
    ∙ ap (first_of (id_if_group n (heap r))) (group_id_in-same heap heap' n rs hs)

group_id_in-append :
    (heap : ℕ → FeedbagItem) (n : List ℕ) (rs : List ℕ) (x : ℕ)
    → id_if_group n (heap x) ≡ none
    → group_id_in heap (rs ++ x ∷ []) n ≡ group_id_in heap rs n
unfolding group_id_in
group_id_in-append heap n [] x h = ap (λ z. first_of z none) h
group_id_in-append heap n (r ∷ rs) x h =
    ap (first_of (id_if_group n (heap r))) (group_id_in-append heap n rs x h)

group_id_in-remove_first :
    (heap : ℕ → FeedbagItem) (n : List ℕ) (rs : List ℕ) (x : ℕ)
    → id_if_group n (heap x) ≡ none
    → group_id_in heap (remove_first x rs) n ≡ group_id_in heap rs n
unfolding group_id_in remove_first
group_id_in-remove_first heap n [] x h = refl
group_id_in-remove_first heap n (r ∷ rs) x h = elim (Bool-cases (r == x)) [
  | inl t ↦ rw t (
      ap (λ z. first_of z (group_id_in heap rs n))
        (sym (ap (λ z. id_if_group n (heap z)) (==→eq r x t) ∙ h)))
  | inr f ↦ rw f (ap (first_of (id_if_group n (heap r))) (group_id_in-remove_first heap n rs x h))
]

no_group :
    (n : List ℕ) (item : FeedbagItem) → (item.class_id == 1) ≡ false → id_if_group n item ≡ none
no_group n item h = rw h refl

key-class : (a b : FeedbagItem) → key a ≡ key b → (a.class_id == 1) ≡ (b.class_id == 1)
unfolding key
key-class a b e = ap (λ z. head_of z == 1) e
  where
    head_of : List ℕ → ℕ
    head_of [] = 0
    head_of (x ∷ xs) = x

module _ (item : FeedbagItem) (f : FeedbagList) (h : (item.class_id == 1) ≡ false) where
  found-no_group :
      (n : List ℕ) (r : ℕ)
      → find_item (matching f.heap item) f.heap f.items ≡ some r
      → id_if_group n (f.heap r) ≡ none
  found-no_group n r e = no_group n (f.heap r) (
      key-class (f.heap r) item
        (bytes_eq→eq (key (f.heap r)) (key item) (found-key f.heap item f.items r e))
      ∙ h)

  pub delete_item-group_id_of :
      (n : List ℕ) → group_id_of (delete_item item f).1 n ≡ group_id_of f n
  unfolding delete_item
  delete_item-group_id_of n =
      elim (Option-cases (find_item (matching f.heap item) f.heap f.items)) [
        | inl e ↦ rw (e, delete_item) refl
        | inr (r, e) ↦
            rw (e, delete_item) (group_id_in-remove_first f.heap n f.items r (found-no_group n r e))
      ]

  replaced-group_id :
      (n : List ℕ) (r : ℕ) (stored : FeedbagItem)
      → find_item (matching f.heap item) f.heap f.items ≡ some r
      → (stored.class_id == 1) ≡ false
      → group_id_in (update r stored f.heap) f.items n ≡ group_id_of f n
  replaced-group_id n r stored e s =
      group_id_in-same f.heap (update r stored f.heap) n f.items (every f.items alike)
    where
      alike : (x : ℕ) → id_if_group n (update r stored f.heap x) ≡ id_if_group n (f.heap x)
      alike x = elim (Bool-cases (r == x)) [
        | inl t ↦
            subst (λ z. id_if_group n (update r stored f.heap z) ≡ id_if_group n (f.heap z))
              (==→eq r x t)
              (ap (id_if_group n) (update_same r stored f.heap)
                ∙ no_group n stored s
                ∙ sym (found-no_group n r e))
        | inr g ↦ ap (id_if_group n) (update_other r x stored f.heap g)
      ]

  inserted-group_id :
      (n : List ℕ) (stored : FeedbagItem)
      → IsValid f
      → (stored.class_id == 1) ≡ false
      → group_id_in (update f.next stored f.heap) (f.items ++ f.next ∷ []) n ≡ group_id_of f n
  inserted-group_id n stored v s =
      group_id_in-append (update f.next stored f.heap) n f.items f.next
        (ap (id_if_group n) (update_same f.next stored f.heap) ∙ no_group n stored s)
      ∙ group_id_in-same f.heap (update f.next stored f.heap) n f.items (
          All-map f.items
            (λ r l. ap (id_if_group n) (update_other f.next r stored f.heap (ground (arith, l))))
            v.allocated)

  tracked :
      (r : ℕ) (g : FeedbagList) (n : List ℕ) → group_id_of (track_update r g) n ≡ group_id_of g n
  unfolding track_update
  tracked r g n = elim (Bool-cases (contains r g.pending_updates)) [
    | inl t ↦ rw t refl
    | inr e ↦ rw e refl
  ]

  pub upsert_normalized-group_id_of :
      (random : ℕ) (n : List ℕ)
      → IsValid f
      → group_id_of (upsert_normalized random item f).1 n ≡ group_id_of f n
  unfolding upsert_normalized
  upsert_normalized-group_id_of random n v =
      elim (Option-cases (find_item (matching f.heap item) f.heap f.items)) [
        | inl e ↦
            rw (e, upsert_normalized)
              (inserted-group_id n (record item { item_id = gen_id random f }) v h)
        | inr (r, e) ↦ elim (Bool-cases (is_equal (f.heap r) item)) [
          | inl t ↦ rw (e, t, upsert_normalized) refl
          | inr m ↦
              rw (e, m, upsert_normalized)
                (tracked r
                    (record f {
                      heap = update r (record item { item_id = (f.heap r).item_id }) f.heap;
                    })
                    n
                  ∙ replaced-group_id n r (record item { item_id = (f.heap r).item_id }) e h)
        ]
      ]
