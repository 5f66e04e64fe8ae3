-- ===== src/State/Feedbag/Groups.antt =====
-- The operations of state/feedbag_list.go on groups and buddies, and the lists of pending changes.
use bencoscar.Prelude.{
  ℕ, ◌+◌, List, [], ◌∷◌, ◌++◌, map, Option, none, some, Bool, not, ◌&&◌, ◌==◌, length,
  if◌then◌else◌, update,
}
use bencoscar.Wire.Tlv.{append}
use bencoscar.State.Feedbag.{
  FeedbagItem, FeedbagList, append_order_members, remove_order_members, find_item, track_update,
  gen_id, delete_item, upsert_item, plain_item, group_by_name,
}

-- A change of an item through its pointer, which is then tracked.
unfoldable pub change_item : (FeedbagItem → FeedbagItem) → ℕ → FeedbagList → FeedbagList
unfolding track_update update
change_item g r f = track_update r (record f { heap = update r (g (f.heap r)) f.heap })

-- A new item at the end of the list.
unfoldable pub push_item : FeedbagItem → FeedbagList → FeedbagList
unfolding update
push_item item f = record f {
  heap = update f.next item f.heap;
  next = f.next + 1;
  items = f.items ++ f.next ∷ [];
}

abbrev pub is_root : FeedbagItem → Bool
is_root item = (item.class_id == 1) && (item.group_id == 0)

-- The root group, which AddGroup creates if it is missing.
unfoldable pub ensure_root : FeedbagList → ℕ × FeedbagList
unfolding find_item push_item track_update
ensure_root f = elim (find_item is_root f.heap f.items) [
  | some r ↦ (r, f)
  | none ↦ (f.next, track_update f.next (push_item (plain_item 1 []) f))
]

-- AddGroup
unfoldable pub add_group : ℕ → List ℕ → FeedbagList → FeedbagItem × FeedbagList
unfolding group_by_name ensure_root gen_id push_item change_item append_order_members track_update
add_group random name f = elim (group_by_name name f) [
  | some g ↦ (f.heap g, f)
  | none ↦
      let (root, f1) = ensure_root f in
      let group = record (plain_item 1 name) { group_id = gen_id random f1 } in
      let f2 = push_item group f1 in
      let f3 = change_item (append_order_members group.group_id) root f2 in
      let f4 = track_update f1.next f3 in (f4.heap f1.next, f4)
]

-- DeleteGroup: the items of the group, one after the other, and then its ID in the root group.
unfoldable pub in_group : ℕ → (ℕ → FeedbagItem) → List ℕ → List ℕ
in_group id heap [] = []
in_group id heap (r ∷ rs) =
    let rest = in_group id heap rs in if (heap r).group_id == id then r ∷ rest else rest

unfoldable pub delete_items : List ℕ → FeedbagList → FeedbagList
unfolding delete_item
delete_items [] f = f
delete_items (r ∷ rs) f = delete_items rs (delete_item (f.heap r) f).1

unfoldable pub leave_roots : ℕ → List ℕ → FeedbagList → FeedbagList
unfolding change_item remove_order_members
leave_roots id [] f = f
leave_roots id (r ∷ rs) f =
    leave_roots id rs (if is_root (f.heap r) then change_item (remove_order_members id) r f else f)

unfoldable pub delete_group : List ℕ → FeedbagList → FeedbagList
unfolding group_by_name in_group delete_items leave_roots
delete_group group_name f = elim (group_by_name group_name f) [
  | none ↦ f
  | some g ↦
      let id = (f.heap g).group_id in
      let to_delete = in_group id f.heap f.items in
      let f1 = delete_items to_delete f in
      if not (length to_delete == 0) && not (id == 0) then leave_roots id f1.items f1 else f1
]

-- AddBuddy; `none` is the error for a missing group.
unfoldable pub buddy_item : ℕ → List ℕ → List ℕ → List ℕ → FeedbagItem
unfolding append
buddy_item id screen_name alias note =
    let item = record (plain_item 0 screen_name) { group_id = id } in
    let aliased =
      if length alias == 0 then [] else append [] (record { tag = 0x0131; value = alias }) in
    record item {
      tlv_list =
          if length note == 0
          then aliased
          else append aliased (record { tag = 0x013c; value = note });
    }

unfoldable pub add_buddy :
    ℕ → List ℕ → List ℕ → List ℕ → List ℕ → FeedbagList → Option (Bool × FeedbagList)
unfolding group_by_name upsert_item buddy_item change_item append_order_members
add_buddy random group_name screen_name alias note f = elim (group_by_name group_name f) [
  | none ↦ none
  | some g ↦
      let ((result, inserted), f1) =
        upsert_item random (buddy_item (f.heap g).group_id screen_name alias note) f in
      some
        (inserted, if inserted then change_item (append_order_members result.item_id) g f1 else f1)
]

-- DeleteBuddy
unfoldable pub delete_buddy : List ℕ → List ℕ → FeedbagList → Option FeedbagList
unfolding group_by_name delete_item change_item remove_order_members
delete_buddy group_name buddy_name f = elim (group_by_name group_name f) [
  | none ↦ none
  | some g ↦
      let (deleted, f1) =
        delete_item (record (plain_item 0 buddy_name) { group_id = (f.heap g).group_id }) f in
      some (elim deleted [
        | none ↦ f1
        | some item ↦ change_item (remove_order_members item.item_id) g f1
      ])
]

-- PendingUpdates and PendingDeletes: the items as they are now; the list of pointers is cleared.
unfoldable pub pending_updates_of : FeedbagList → List FeedbagItem × FeedbagList
pending_updates_of f = (map f.heap f.pending_updates, record f { pending_updates = [] })

unfoldable pub pending_deletes_of : FeedbagList → List FeedbagItem × FeedbagList
pending_deletes_of f = (map f.heap f.pending_deletes, record f { pending_deletes = [] })

-- NewFeedbagList: a pointer to each item of the slice.
unfoldable pub fill : ℕ → List FeedbagItem → (ℕ → FeedbagItem) → ℕ → FeedbagItem
unfolding update
fill r [] heap = heap
fill r (item ∷ items) heap = fill (r + 1) items (update r item heap)

unfoldable pub pointers_from : ℕ → List FeedbagItem → List ℕ
pointers_from r [] = []
pointers_from r (item ∷ items) = r ∷ pointers_from (r + 1) items

unfoldable pub new_feedbag_list : List FeedbagItem → FeedbagList
unfolding fill pointers_from
new_feedbag_list items = record {
  heap = fill 0 items (λ r. plain_item 0 []);
  next = length items;
  items = pointers_from 0 items;
  pending_updates = [];
  pending_deletes = [];
}
