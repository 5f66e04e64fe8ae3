-- ===== src/State/Feedbag.antt =====
-- state/feedbag_list.go, and FeedbagItem of wire/snacs.go: a user's list of groups, buddies and
-- permitted or denied users. Items are pointers into a heap. The random number that an operation
-- may use for a new ID is an argument.
pub mod Groups
pub mod Ids
pub mod Keys
pub mod Views
pub mod Upsert
pub mod GroupIds
pub mod Orders
pub mod Refine
pub mod Tests
use bencoscar.Prelude.{
  ℕ, zero, suc, ◌+◌, ◌%◌, List, [], ◌∷◌, ◌++◌, map, Option, none, some, Bool, true, false, not,
  ◌&&◌, ◌||◌, ◌==◌, length, bytes_eq, if◌then◌else◌, update,
}
use bencoscar.Wire.Words.{big, w16, put_uint}
use bencoscar.Wire.Encode.{concat_map}
use bencoscar.Wire.Tlv.{Tlv, TlvList, new_tlv_bytes, append, replace, list_uint16_slice_be}
use bencoscar.State.ScreenNames.{new_ident_screen_name}

pub record FeedbagItem : Type 0 where
  pub name : List ℕ
  pub group_id : ℕ
  pub item_id : ℕ
  pub class_id : ℕ
  pub tlv_list : TlvList

-- FeedbagItem.IsEqual; the item ID does not count.
unfoldable pub same_tlvs : TlvList → TlvList → Bool
same_tlvs [] [] = true
same_tlvs [] (o ∷ os) = false
same_tlvs (t ∷ ts) [] = false
same_tlvs (t ∷ ts) (o ∷ os) = (t.tag == o.tag) && bytes_eq t.value o.value && same_tlvs ts os

unfoldable pub is_equal : FeedbagItem → FeedbagItem → Bool
unfolding same_tlvs
is_equal f other =
    bytes_eq f.name other.name
    && (f.group_id == other.group_id)
    && (f.class_id == other.class_id)
    && same_tlvs f.tlv_list other.tlv_list

-- NewTLVBE of a slice of uint16 with the tag FeedbagAttributesOrder.
abbrev pub order_tlv : List ℕ → Tlv
order_tlv ids = record { tag = 0x00c8; value = concat_map (put_uint big w16) ids }

-- AppendOrderMembers and RemoveOrderMembers of one ID.
unfoldable pub append_order_members : ℕ → FeedbagItem → FeedbagItem
unfolding list_uint16_slice_be replace append concat_map
append_order_members id f =
    let (existing, present) = list_uint16_slice_be f.tlv_list 0x00c8 in
    record f {
      tlv_list =
          if present
          then replace f.tlv_list (order_tlv (existing ++ id ∷ []))
          else append f.tlv_list (order_tlv (id ∷ []));
    }

unfoldable pub without_id : ℕ → List ℕ → List ℕ
without_id id [] = []
without_id id (x ∷ xs) = let rest = without_id id xs in if x == id then rest else x ∷ rest

unfoldable pub remove_order_members : ℕ → FeedbagItem → FeedbagItem
unfolding list_uint16_slice_be replace without_id concat_map
remove_order_members id f =
    let (existing, present) = list_uint16_slice_be f.tlv_list 0x00c8 in
    if present
    then record f { tlv_list = replace f.tlv_list (order_tlv (without_id id existing)) }
    else f

pub record FeedbagList : Type 0 where
  pub heap : ℕ → FeedbagItem
  pub next : ℕ
  pub items : List ℕ
  pub pending_updates : List ℕ
  pub pending_deletes : List ℕ

-- hasScreenName: the classes buddy, permit and deny.
abbrev pub has_screen_name : ℕ → Bool
has_screen_name class_id = (class_id == 0) || (class_id == 2) || (class_id == 3)

-- itemsMatch
unfoldable pub items_match : FeedbagItem → FeedbagItem → Bool
unfolding new_ident_screen_name
items_match a b =
    if not (a.class_id == b.class_id)
    then false
    else let name_match =
        if has_screen_name a.class_id
        then bytes_eq (new_ident_screen_name a.name) (new_ident_screen_name b.name)
        else bytes_eq a.name b.name in
      if not name_match then false else if a.class_id == 0 then a.group_id == b.group_id else true

-- The first item that satisfies a test.
unfoldable pub find_item : (FeedbagItem → Bool) → (ℕ → FeedbagItem) → List ℕ → Option ℕ
find_item p heap [] = none
find_item p heap (r ∷ rs) = if p (heap r) then some r else find_item p heap rs

-- trackUpdate
unfoldable pub contains : ℕ → List ℕ → Bool
contains r [] = false
contains r (x ∷ xs) = if x == r then true else contains r xs

unfoldable pub track_update : ℕ → FeedbagList → FeedbagList
unfolding contains
track_update r f =
    if contains r f.pending_updates
    then f
    else record f { pending_updates = f.pending_updates ++ r ∷ [] }

-- genID: the uint16 goes up from the random number, and stops before it is one below it.
unfoldable pub id_used : ℕ → (ℕ → FeedbagItem) → List ℕ → Bool
id_used id heap [] = false
id_used id heap (r ∷ rs) =
    if ((heap r).group_id == id) || ((heap r).item_id == id) then true else id_used id heap rs

unfoldable pub gen_id_from : ℕ → ℕ → ℕ → (ℕ → FeedbagItem) → List ℕ → ℕ
unfolding id_used
gen_id_from zero id num heap items = 0
gen_id_from (suc rounds) id num heap items =
    let rest = gen_id_from rounds ((id + 1) % 0x1_0000) num heap items in
    if id == (num + 0xffff) % 0x1_0000
    then 0
    else if (id == 0) || id_used id heap items
    then rest
    else id

unfoldable pub gen_id : ℕ → FeedbagList → ℕ
unfolding gen_id_from
gen_id random f = gen_id_from 0x1_0000 (random % 0x1_0000) (random % 0x1_0000) f.heap f.items

-- deleteItem: what was found, and the list.
unfoldable pub remove_first : ℕ → List ℕ → List ℕ
remove_first r [] = []
remove_first r (x ∷ xs) = let rest = remove_first r xs in if x == r then xs else x ∷ rest

unfoldable pub delete_item : FeedbagItem → FeedbagList → Option FeedbagItem × FeedbagList
unfolding find_item items_match remove_first
delete_item item f = elim (find_item (λ existing. items_match existing item) f.heap f.items) [
  | none ↦ (none, f)
  | some r ↦ (
    some (f.heap r),
    record f { pending_deletes = f.pending_deletes ++ r ∷ []; items = remove_first r f.items },
  )
]

-- upsertItem: the stored item, whether it was inserted, and the list.
abbrev pub normalized : FeedbagItem → FeedbagItem
normalized item = record item {
  name = if has_screen_name item.class_id then new_ident_screen_name item.name else item.name;
}

unfoldable pub upsert_normalized :
    ℕ → FeedbagItem → FeedbagList → (FeedbagItem × Bool) × FeedbagList
unfolding find_item items_match is_equal track_update update gen_id
upsert_normalized random item f =
    elim (find_item (λ existing. items_match existing item) f.heap f.items) [
      | some r ↦
          let stored = record item { item_id = (f.heap r).item_id } in
          if is_equal (f.heap r) item
          then ((f.heap r, false), f)
          else ((stored, false), track_update r (record f { heap = update r stored f.heap }))
      | none ↦
          let stored = record item { item_id = gen_id random f } in
          (
            (stored, true),
            record f {
              heap = update f.next stored f.heap;
              next = f.next + 1;
              items = f.items ++ f.next ∷ [];
              pending_updates = f.pending_updates ++ f.next ∷ [];
            },
          )
    ]

unfoldable pub upsert_item : ℕ → FeedbagItem → FeedbagList → (FeedbagItem × Bool) × FeedbagList
unfolding upsert_normalized new_ident_screen_name
upsert_item random item f = upsert_normalized random (normalized item) f

-- An item of a class with a name, and nothing else.
abbrev pub plain_item : ℕ → List ℕ → FeedbagItem
plain_item class_id name = record {
  name = name;
  group_id = 0;
  item_id = 0;
  class_id = class_id;
  tlv_list = [];
}

-- SetMode
unfoldable pub set_mode : ℕ → ℕ → FeedbagList → FeedbagList
unfolding upsert_item
set_mode random mode f =
    (upsert_item random
      (record (plain_item 4 []) { tlv_list = record { tag = 0x00ca; value = mode ∷ [] } ∷ [] }) f).1

-- PermitUser, DenyUser, DeletePermit and DeleteDeny
unfoldable pub permit_user : ℕ → List ℕ → FeedbagList → FeedbagList
unfolding upsert_item
permit_user random screen_name f = (upsert_item random (plain_item 2 screen_name) f).1

unfoldable pub deny_user : ℕ → List ℕ → FeedbagList → FeedbagList
unfolding upsert_item
deny_user random screen_name f = (upsert_item random (plain_item 3 screen_name) f).1

unfoldable pub delete_permit : List ℕ → FeedbagList → FeedbagList
unfolding delete_item
delete_permit screen_name f = (delete_item (plain_item 2 screen_name) f).1

unfoldable pub delete_deny : List ℕ → FeedbagList → FeedbagList
unfolding delete_item
delete_deny screen_name f = (delete_item (plain_item 3 screen_name) f).1

-- groupByName
unfoldable pub group_by_name : List ℕ → FeedbagList → Option ℕ
unfolding find_item
group_by_name name f =
    find_item (λ item. (item.class_id == 1) && bytes_eq item.name name) f.heap f.items
