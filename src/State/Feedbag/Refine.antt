-- ===== src/State/Feedbag/Refine.antt =====
-- The list as a set of keys: what a client sees of it over any sequence of operations.
use bencoscar.Prelude.{
  ℕ, ◌≡◌, refl, sym, ap, ◌∙◌, subst, List, [], ◌∷◌, Option, none, some, Bool, true, false, ◌==◌,
  inl, inr, Option-cases, bytes_eq, if◌then◌else◌,
}
use bencoscar.State.ScreenNames.{new_ident_screen_name}
use bencoscar.State.Feedbag.{
  FeedbagItem, FeedbagList, delete_item, upsert_item, normalized, plain_item, set_mode, permit_user,
  deny_user, delete_permit, delete_deny, group_by_name, append_order_members, remove_order_members,
}
use bencoscar.State.Feedbag.Groups.{change_item, buddy_item, add_buddy, delete_buddy}
use bencoscar.State.Feedbag.Keys.{key}
use bencoscar.State.Feedbag.Views.{has, IsValid}
use bencoscar.State.Feedbag.Upsert.{Sets, delete_item-Sets, upsert_item-Sets}
use bencoscar.State.Feedbag.GroupIds.{
  group_id_of, id_at, group_by_name-group_id_of, delete_item-group_id_of,
  upsert_normalized-group_id_of,
}
use bencoscar.State.Feedbag.Orders.{Agrees, append_order-Agrees, remove_order-Agrees}

-- The operations on entries; a number is the random one that a new ID starts from.
pub data Op : Type 0 where
  sets_mode : ℕ → ℕ → Op
  permits denies : ℕ → List ℕ → Op
  unpermits undenies : List ℕ → Op
  adds_buddy : ℕ → List ℕ → List ℕ → List ℕ → List ℕ → Op
  drops_buddy : List ℕ → List ℕ → Op

unfoldable pub apply : Op → FeedbagList → FeedbagList
unfolding set_mode permit_user deny_user delete_permit delete_deny add_buddy delete_buddy
apply (sets_mode random mode) f = set_mode random mode f
apply (permits random sn) f = permit_user random sn f
apply (denies random sn) f = deny_user random sn f
apply (unpermits sn) f = delete_permit sn f
apply (undenies sn) f = delete_deny sn f
apply (adds_buddy random group sn alias note) f = elim (add_buddy random group sn alias note f) [
  | none ↦ f
  | some a ↦ a.1
]
apply (drops_buddy group sn) f = elim (delete_buddy group sn f) [ none ↦ f | some g ↦ g ]

unfoldable pub run : List Op → FeedbagList → FeedbagList
unfolding apply
run [] f = f
run (op ∷ ops) f = run ops (apply op f)

-- The same on a set of entries: the class, the group of a buddy, and the name without spaces and
-- capitals. An operation on a buddy of a group that is not there does nothing.
unfoldable pub put : List ℕ → Bool → (List ℕ → Bool) → List ℕ → Bool
put k b m x = if bytes_eq k x then b else m x

unfoldable pub put_buddy : Option ℕ → List ℕ → Bool → (List ℕ → Bool) → List ℕ → Bool
unfolding put new_ident_screen_name
put_buddy none sn b m = m
put_buddy (some id) sn b m = put (0 ∷ id ∷ new_ident_screen_name sn) b m

unfoldable pub act : (List ℕ → Option ℕ) → Op → (List ℕ → Bool) → List ℕ → Bool
unfolding put put_buddy new_ident_screen_name
act groups (sets_mode random mode) m = put (4 ∷ 0 ∷ []) true m
act groups (permits random sn) m = put (2 ∷ 0 ∷ new_ident_screen_name sn) true m
act groups (denies random sn) m = put (3 ∷ 0 ∷ new_ident_screen_name sn) true m
act groups (unpermits sn) m = put (2 ∷ 0 ∷ new_ident_screen_name sn) false m
act groups (undenies sn) m = put (3 ∷ 0 ∷ new_ident_screen_name sn) false m
act groups (adds_buddy random group sn alias note) m = put_buddy (groups group) sn true m
act groups (drops_buddy group sn) m = put_buddy (groups group) sn false m

unfoldable pub replay : (List ℕ → Option ℕ) → List Op → (List ℕ → Bool) → List ℕ → Bool
unfolding act
replay groups [] m = m
replay groups (op ∷ ops) m = replay groups ops (act groups op m)

abbrev pub view : FeedbagList → List ℕ → Bool
view f x = has f.heap x f.items

-- What one operation does, seen as a set.
abbrev Follows : (List ℕ → Bool) → FeedbagList → FeedbagList → Type 0
Follows m f g = IsValid g × (view g ≡ m) × (group_id_of g ≡ group_id_of f)

follows :
    (k : List ℕ) (b : Bool) (f g : FeedbagList)
    → Sets k b f g
    → ((n : List ℕ) → group_id_of g n ≡ group_id_of f n)
    → Follows (put k b (view f)) f g
unfolding put
follows k b f g (v, h) n = (v, λ i. λ x. h x i, λ i. λ x. n x i)

then-Agrees : (m : List ℕ → Bool) (f g h : FeedbagList) → Follows m f g → Agrees g h → Follows m f h
then-Agrees m f g h (v, e, n) (v', e', n') = (v', (λ i. λ x. e' x i) ∙ e, (λ i. λ x. n' x i) ∙ n)

upserts :
    (random : ℕ) (item : FeedbagItem) (f : FeedbagList)
    → IsValid f
    → (item.class_id == 1) ≡ false
    → Follows (put (key item) true (view f)) f (upsert_item random item f).1
unfolding upsert_item
upserts random item f v h =
    follows (key item) true f (upsert_item random item f).1 (upsert_item-Sets random item f v)
      (λ n. upsert_normalized-group_id_of (normalized item) f h random n v)

deletes :
    (item : FeedbagItem) (f : FeedbagList)
    → IsValid f
    → (item.class_id == 1) ≡ false
    → Follows (put (key item) false (view f)) f (delete_item item f).1
deletes item f v h =
    follows (key item) false f (delete_item item f).1 (delete_item-Sets item f v)
      (delete_item-group_id_of item f h)

stays : (f : FeedbagList) → IsValid f → Follows (view f) f f
stays f v = (v, refl, refl)

add_buddy-Follows :
    (random : ℕ) (group sn alias note : List ℕ) (f : FeedbagList)
    → IsValid f
    → Follows
        (put_buddy (group_id_of f group) sn true (view f))
        f
        (apply (adds_buddy random group sn alias note) f)
unfolding apply add_buddy put_buddy buddy_item key
add_buddy-Follows random group sn alias note f v = elim (Option-cases (group_by_name group f)) [
  | inl e ↦
      let q : group_id_of f group ≡ none =
        sym (group_by_name-group_id_of group f) ∙ ap (id_at f) e in
      rw (e, apply, add_buddy)
        (subst (λ z. Follows (put_buddy z sn true (view f)) f f) (sym q) (stays f v))
  | inr (r, e) ↦
      let q : group_id_of f group ≡ some (f.heap r).group_id =
        sym (group_by_name-group_id_of group f) ∙ ap (id_at f) e in
      let item = buddy_item (f.heap r).group_id sn alias note in
      let done = upsert_item random item f in
      let s = upserts random item f v refl in
      rw (e, apply, add_buddy)
        (subst
          (λ z. Follows (put_buddy z sn true (view f)) f (
            if done.0.1
            then change_item (append_order_members done.0.0.item_id) r done.1
            else done.1))
          (sym q) (inserted item r done.0.1 done.0.0.item_id done.1 s))
]
  where
    inserted :
        (item : FeedbagItem) (r : ℕ) (b : Bool) (id : ℕ) (g : FeedbagList)
        → Follows (put (key item) true (view f)) f g
        → Follows
            (put (key item) true (view f))
            f
            (if b then change_item (append_order_members id) r g else g)
    inserted item r true id g s =
        then-Agrees (put (key item) true (view f)) f g (change_item (append_order_members id) r g) s
          (append_order-Agrees id r g s.0)
    inserted item r false id g s = s

delete_buddy-Follows :
    (group sn : List ℕ) (f : FeedbagList)
    → IsValid f
    → Follows (put_buddy (group_id_of f group) sn false (view f)) f (apply (drops_buddy group sn) f)
unfolding apply delete_buddy put_buddy key
delete_buddy-Follows group sn f v = elim (Option-cases (group_by_name group f)) [
  | inl e ↦
      let q : group_id_of f group ≡ none =
        sym (group_by_name-group_id_of group f) ∙ ap (id_at f) e in
      rw (e, apply, delete_buddy)
        (subst (λ z. Follows (put_buddy z sn false (view f)) f f) (sym q) (stays f v))
  | inr (r, e) ↦
      let q : group_id_of f group ≡ some (f.heap r).group_id =
        sym (group_by_name-group_id_of group f) ∙ ap (id_at f) e in
      let item : FeedbagItem = record (plain_item 0 sn) { group_id = (f.heap r).group_id } in
      let done = delete_item item f in
      let s = deletes item f v refl in
      rw (e, apply, delete_buddy)
        (subst (λ z. Follows (put_buddy z sn false (view f)) f (left r done.0 done.1)) (sym q)
          (leaves item r done.0 done.1 s))
]
  where
    left : ℕ → Option FeedbagItem → FeedbagList → FeedbagList
    left r o g = elim o [ none ↦ g | some x ↦ change_item (remove_order_members x.item_id) r g ]

    leaves :
        (item : FeedbagItem) (r : ℕ) (o : Option FeedbagItem) (g : FeedbagList)
        → Follows (put (key item) false (view f)) f g
        → Follows (put (key item) false (view f)) f (left r o g)
    leaves item r none g s = s
    leaves item r (some x) g s =
        then-Agrees (put (key item) false (view f)) f g
          (change_item (remove_order_members x.item_id) r g) s
          (remove_order-Agrees x.item_id r g s.0)

apply-Follows :
    (op : Op) (f : FeedbagList)
    → IsValid f
    → Follows (act (group_id_of f) op (view f)) f (apply op f)
unfolding apply act set_mode permit_user deny_user delete_permit delete_deny key
apply-Follows (sets_mode random mode) f v =
    upserts random
      (record (plain_item 4 []) { tlv_list = record { tag = 0x00ca; value = mode ∷ [] } ∷ [] }) f v
      refl
apply-Follows (permits random sn) f v = upserts random (plain_item 2 sn) f v refl
apply-Follows (denies random sn) f v = upserts random (plain_item 3 sn) f v refl
apply-Follows (unpermits sn) f v = deletes (plain_item 2 sn) f v refl
apply-Follows (undenies sn) f v = deletes (plain_item 3 sn) f v refl
apply-Follows (adds_buddy random group sn alias note) f v =
    add_buddy-Follows random group sn alias note f v
apply-Follows (drops_buddy group sn) f v = delete_buddy-Follows group sn f v

-- From a list in which no two entries match, any sequence of operations on buddies, permitted and
-- denied users and the mode ends in such a list, and the entries in it are those that the same
-- operations, done on a set, put into the set of the entries at the start, names being compared
-- without spaces and capitals; whatever the random numbers, the aliases and the notes.
pub run_refines :
    (ops : List Op) (f : FeedbagList)
    → IsValid f
    → IsValid (run ops f) × (view (run ops f) ≡ replay (group_id_of f) ops (view f))
unfolding run replay
run_refines [] f v = (v, refl)
run_refines (op ∷ ops) f v =
    let (v', e, n) = apply-Follows op f v in
    let (v'', e') = run_refines ops (apply op f) v' in
    (v'', e' ∙ ap (λ z. replay z ops (view (apply op f))) n ∙ ap (replay (group_id_of f) ops) e)
