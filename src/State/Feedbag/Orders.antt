-- ===== src/State/Feedbag/Orders.antt =====
-- A change of the order TLV of a group keeps what the list is as a set of keys.
use bencoscar.Prelude.{
  ℕ, ◌≡◌, refl, ap, ◌∙◌, subst, List, ◌==◌, inl, inr, Bool-cases, update, update_same, update_other,
  ==→eq,
}
use bencoscar.Wire.Tlv.{list_uint16_slice_be}
use bencoscar.State.Feedbag.{
  FeedbagItem, FeedbagList, contains, track_update, append_order_members, remove_order_members,
}
use bencoscar.State.Feedbag.Groups.{change_item}
use bencoscar.State.Feedbag.Keys.{key}
use bencoscar.State.Feedbag.Views.{has, IsValid}
use bencoscar.State.Feedbag.Upsert.{has-same, Distinct-same, every}
use bencoscar.State.Feedbag.GroupIds.{id_if_group, group_id_in, group_id_of, group_id_in-same}

-- Valid as before, with the same keys and the same groups.
abbrev pub Agrees : FeedbagList → FeedbagList → Type 0
Agrees f g =
    IsValid g
    × ((x : List ℕ) → has g.heap x g.items ≡ has f.heap x f.items)
    × ((n : List ℕ) → group_id_of g n ≡ group_id_of f n)

module _ (g : FeedbagItem → FeedbagItem) (same : (item : FeedbagItem) → key (g item) ≡ key item)
    (group : (n : List ℕ) (item : FeedbagItem) → id_if_group n (g item) ≡ id_if_group n item) where
  change_item-Agrees : (r : ℕ) (f : FeedbagList) → IsValid f → Agrees f (change_item g r f)
  unfolding change_item track_update
  change_item-Agrees r f v = elim (Bool-cases (contains r f.pending_updates)) [
    | inl t ↦ rw t (valid, keys, groups)
    | inr e ↦ rw e (record { distinct = valid.distinct; allocated = valid.allocated }, keys, groups)
  ]
    where
      alike :
          {A : Type 0} (h : FeedbagItem → A)
          → ((item : FeedbagItem) → h (g item) ≡ h item)
          → (x : ℕ) → h (update r (g (f.heap r)) f.heap x) ≡ h (f.heap x)
      alike h e x = elim (Bool-cases (r == x)) [
        | inl t ↦
            subst (λ z. h (update r (g (f.heap r)) f.heap z) ≡ h (f.heap z)) (==→eq r x t)
              (ap h (update_same r (g (f.heap r)) f.heap) ∙ e (f.heap r))
        | inr b ↦ ap h (update_other r x (g (f.heap r)) f.heap b)
      ]

      valid : IsValid (record f { heap = update r (g (f.heap r)) f.heap })
      valid = record {
        distinct =
            Distinct-same f.heap (update r (g (f.heap r)) f.heap) f.items
              (every f.items (alike key same)) v.distinct;
        allocated = v.allocated;
      }

      keys : (x : List ℕ) → has (update r (g (f.heap r)) f.heap) x f.items ≡ has f.heap x f.items
      keys x =
          has-same f.heap (update r (g (f.heap r)) f.heap) x f.items
            (every f.items (alike key same))

      groups :
          (n : List ℕ) → group_id_in (update r (g (f.heap r)) f.heap) f.items n ≡ group_id_of f n
      groups n =
          group_id_in-same f.heap (update r (g (f.heap r)) f.heap) n f.items
            (every f.items (alike (id_if_group n) (group n)))

pub append_order-Agrees :
    (id r : ℕ) (f : FeedbagList) → IsValid f → Agrees f (change_item (append_order_members id) r f)
unfolding append_order_members key
append_order-Agrees id =
    change_item-Agrees (append_order_members id) (λ item. refl) (λ n item. refl)

pub remove_order-Agrees :
    (id r : ℕ) (f : FeedbagList) → IsValid f → Agrees f (change_item (remove_order_members id) r f)
unfolding remove_order_members key
remove_order-Agrees id = change_item-Agrees (remove_order_members id) keys groups
  where
    keys : (item : FeedbagItem) → key (remove_order_members id item) ≡ key item
    keys item = elim (Bool-cases (list_uint16_slice_be item.tlv_list 0x00c8).1) [
      | inl t ↦ rw t refl
      | inr e ↦ rw e refl
    ]

    groups :
        (n : List ℕ) (item : FeedbagItem)
        → id_if_group n (remove_order_members id item) ≡ id_if_group n item
    groups n item = elim (Bool-cases (list_uint16_slice_be item.tlv_list 0x00c8).1) [
      | inl t ↦ rw t refl
      | inr e ↦ rw e refl
    ]
