-- ===== src/State/Feedbag/Tests.antt =====
-- A feedbag with one group and one buddy.
use bencoscar.Prelude.{
  ℕ, ◌≡◌, refl, List, [], ◌∷◌, map, Bool, true, false, codes, arith, update, length,
}
use bencoscar.Wire.Words.{get_uint, put_uint}
use bencoscar.State.ScreenNames.{new_ident_screen_name}
use bencoscar.State.Feedbag.{FeedbagItem, FeedbagList, gen_id, plain_item}
use bencoscar.State.Feedbag.Groups.{
  new_feedbag_list, add_group, delete_group, pending_updates_of, pending_deletes_of,
}
use bencoscar.State.Feedbag.Ids.{IdFor, gen_id-IdFor}
use bencoscar.State.Feedbag.Keys.{key}
use bencoscar.State.Feedbag.Views.{has, IsValid}
use bencoscar.State.Feedbag.GroupIds.{group_id_of, group_id_in}
use bencoscar.State.Feedbag.Refine.{
  Op, permits, denies, unpermits, adds_buddy, drops_buddy, run, replay, view, run_refines,
}

abbrev friends : FeedbagItem
friends = record {
  name = codes "Friends";
  group_id = 7;
  item_id = 0;
  class_id = 1;
  tlv_list = record { tag = 0x00c8; value = 0 ∷ 5 ∷ [] } ∷ [];
}

abbrev chuck : FeedbagItem
chuck = record {
  name = codes "chattingchuck";
  group_id = 7;
  item_id = 5;
  class_id = 0;
  tlv_list = [];
}

start : FeedbagList
unfolding new_feedbag_list
start = new_feedbag_list (friends ∷ chuck ∷ [])

start-IsValid : IsValid start
unfolding start new_feedbag_list key update
start-IsValid = record {
  distinct = (((refl, refl), tt), (tt, tt));
  allocated = (omega arith, (omega arith, tt));
}

abbrev session : List Op
session =
    permits 5 (codes "Some One")
    ∷ adds_buddy 9 (codes "Friends") (codes "Big Al") (codes "Al") []
    ∷ drops_buddy (codes "Friends") (codes "Chatting Chuck")
    ∷ unpermits (codes "SOMEONE")
    ∷ denies 5 (codes "Some One")
    ∷ adds_buddy 9 (codes "Nobody") (codes "Big Al") [] []
    ∷ []

run_refines_example :
    IsValid (run session start)
    × (view (run session start) ≡ replay (group_id_of start) session (view start))
run_refines_example = run_refines session start start-IsValid

abbrev seen : (List ℕ → Bool) → List Bool
seen m = map m (
    (2 ∷ 0 ∷ codes "someone")
    ∷ (3 ∷ 0 ∷ codes "someone")
    ∷ (0 ∷ 7 ∷ codes "bigal")
    ∷ (0 ∷ 7 ∷ codes "chattingchuck")
    ∷ (1 ∷ 0 ∷ codes "Friends")
    ∷ [])

-- What the set has after these operations.
replay_example :
    seen (replay (group_id_of start) session (view start)) ≡ false ∷ true ∷ true ∷ false ∷ true ∷ []
unfolding replay start new_feedbag_list key has group_id_in new_ident_screen_name update
replay_example = refl

gen_id-IdFor_example : IdFor 5 start (gen_id 5 start)
gen_id-IdFor_example = gen_id-IdFor 5 start

-- 5 is the buddy's, 7 the group's.
gen_id_example : map (λ random. gen_id random start) (5 ∷ 7 ∷ []) ≡ 6 ∷ 8 ∷ []
unfolding gen_id start new_feedbag_list update
gen_id_example = refl

-- A group without a name takes the root group with it, and what stands in no group.
abbrev left_of : FeedbagList → List (List ℕ)
left_of f = map (λ r. (f.heap r).name) f.items

root_example :
    left_of (
      delete_group []
        (new_feedbag_list (plain_item 1 [] ∷ plain_item 2 (codes "someone") ∷ friends ∷ [])))
    ≡ codes "Friends" ∷ []
unfolding delete_group new_feedbag_list update new_ident_screen_name
root_example = refl

-- A buddy that is added and deleted before the changes are stored is in both lists of changes.
abbrev changes_of : FeedbagList → ℕ × ℕ
changes_of f = (length (pending_updates_of f).0, length (pending_deletes_of f).0)

both_example :
    changes_of (
      run
        (adds_buddy 9 (codes "Friends") (codes "Big Al") [] []
          ∷ drops_buddy (codes "Friends") (codes "bigal")
          ∷ [])
        start)
    ≡ (2, 1)
unfolding run start new_feedbag_list update pending_updates_of pending_deletes_of put_uint get_uint
    new_ident_screen_name
both_example = refl

new_group_example : (add_group 7 (codes "Work") start).0.group_id ≡ 8
unfolding add_group start new_feedbag_list update put_uint get_uint
new_group_example = refl
