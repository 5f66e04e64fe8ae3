-- ===== src/State/Feedbag/Upsert.antt =====
-- upsertItem and deleteItem on the set of keys of a valid list.
use bencoscar.Prelude.{
  ℕ, ◌+◌, ◌<◌, ◌≡◌, refl, sym, ap, ◌∙◌, subst, List, [], ◌∷◌, ◌++◌, none, some, Bool, true, false,
  ◌==◌, inl, inr, All, All-map, All-append, arith, Bool-cases, Option-cases, bytes_eq, bytes_eq→eq,
  ==→eq, if◌then◌else◌, update, update_same, update_other,
}
use bencoscar.State.ScreenNames.{new_ident_screen_name}
use bencoscar.State.ScreenNames.Normal.{IsNormal-fixed, new_ident_screen_name-IsNormal}
use bencoscar.State.Feedbag.{
  FeedbagItem, FeedbagList, has_screen_name, is_equal, find_item, contains, track_update, gen_id,
  delete_item, upsert_item, upsert_normalized, normalized,
}
use bencoscar.State.Feedbag.Keys.{key}
use bencoscar.State.Feedbag.Views.{
  has, Distinct, IsValid, missing-has, found-has, found-key, removed-has, Distinct-remove_first,
  All-remove_first, matching,
}

-- Normalizing an item keeps its key.
pub key-normalized : (item : FeedbagItem) → key (normalized item) ≡ key item
unfolding key
key-normalized item = elim (Bool-cases (has_screen_name item.class_id)) [
  | inl t ↦ rw t (
      ap (λ z. item.class_id ∷ (if item.class_id == 0 then item.group_id else 0) ∷ z)
        (IsNormal-fixed (new_ident_screen_name item.name)
          (new_ident_screen_name-IsNormal item.name)))
  | inr f ↦ rw f refl
]

-- Heaps whose items have the same keys.
pub has-same :
    (heap heap' : ℕ → FeedbagItem) (k : List ℕ) (rs : List ℕ)
    → All (λ r. key (heap' r) ≡ key (heap r)) rs
    → has heap' k rs ≡ has heap k rs
unfolding has
has-same heap heap' k [] h = refl
has-same heap heap' k (r ∷ rs) (h, hs) =
    ap (λ z. if bytes_eq z k then true else has heap' k rs) h
    ∙ ap (λ z. if bytes_eq (key (heap r)) k then true else z) (has-same heap heap' k rs hs)

All-two :
    {P Q R : ℕ → Type 0} (rs : List ℕ)
    → ((x : ℕ) → P x → Q x → R x)
    → All P rs
    → All Q rs
    → All R rs
All-two [] f p q = tt
All-two (r ∷ rs) f (p, ps) (q, qs) = (f r p q, All-two rs f ps qs)

pub Distinct-same :
    (heap heap' : ℕ → FeedbagItem) (rs : List ℕ)
    → All (λ r. key (heap' r) ≡ key (heap r)) rs
    → Distinct heap rs
    → Distinct heap' rs
Distinct-same heap heap' [] h d = tt
Distinct-same heap heap' (r ∷ rs) (h, hs) (d, ds) = (
  All-two rs
      (λ x p q.
        (q.0, ap (λ z. bytes_eq z (key (heap' x))) h ∙ ap (bytes_eq (key (heap r))) p ∙ q.1))
      hs d,
  Distinct-same heap heap' rs hs ds,
)

has-append :
    (heap : ℕ → FeedbagItem) (k : List ℕ) (rs : List ℕ) (x : ℕ)
    → has heap k (rs ++ x ∷ []) ≡ (if bytes_eq (key (heap x)) k then true else has heap k rs)
unfolding has
has-append heap k [] x = refl
has-append heap k (r ∷ rs) x = elim (Bool-cases (bytes_eq (key (heap r)) k)) [
  | inl t ↦ rw t (ends (bytes_eq (key (heap x)) k))
  | inr f ↦ rw f (has-append heap k rs x)
]
  where
    ends : (b : Bool) → true ≡ (if b then true else true)
    ends true = refl
    ends false = refl

Distinct-append :
    (heap : ℕ → FeedbagItem) (rs : List ℕ) (x : ℕ)
    → All (λ r. ((r == x) ≡ false) × (bytes_eq (key (heap r)) (key (heap x)) ≡ false)) rs
    → Distinct heap rs
    → Distinct heap (rs ++ x ∷ [])
Distinct-append heap [] x h d = (tt, tt)
Distinct-append heap (r ∷ rs) x (h, hs) (d, ds) = (
  All-append (λ y. ((r == y) ≡ false) × (bytes_eq (key (heap r)) (key (heap y)) ≡ false)) rs
      (x ∷ []) d (h, tt),
  Distinct-append heap rs x hs ds,
)

none-All :
    (heap : ℕ → FeedbagItem) (k : List ℕ) (rs : List ℕ)
    → has heap k rs ≡ false
    → All (λ r. bytes_eq (key (heap r)) k ≡ false) rs
unfolding has
none-All heap k [] h = tt
none-All heap k (r ∷ rs) h = elim (Bool-cases (bytes_eq (key (heap r)) k)) [
  | inl t ↦ let q : true ≡ false = rw t at h in ground arith
  | inr f ↦ (f, none-All heap k rs (rw f at h))
]

-- What an operation does to the list: it stays valid, and its keys are as they were, but for one.
abbrev pub Sets : List ℕ → Bool → FeedbagList → FeedbagList → Type 0
Sets k b f g =
    IsValid g
    × ((x : List ℕ) → has g.heap x g.items ≡ (if bytes_eq k x then b else has f.heap x f.items))

-- The key of the item is there, or not, already.
unchanged :
    (f : FeedbagList) (k : List ℕ) (b : Bool)
    → has f.heap k f.items ≡ b
    → (x : List ℕ) → has f.heap x f.items ≡ (if bytes_eq k x then b else has f.heap x f.items)
unchanged f k b h x = elim (Bool-cases (bytes_eq k x)) [
  | inl t ↦ rw t (subst (λ z. has f.heap z f.items ≡ b) (bytes_eq→eq k x t) h)
  | inr e ↦ rw e refl
]

pub delete_item-Sets :
    (item : FeedbagItem) (f : FeedbagList)
    → IsValid f
    → Sets (key item) false f (delete_item item f).1
unfolding delete_item
delete_item-Sets item f v = elim (Option-cases (find_item (matching f.heap item) f.heap f.items)) [
  | inl e ↦
      rw (e, delete_item) (v, unchanged f (key item) false (missing-has f.heap item f.items e))
  | inr (r, e) ↦
      rw (e, delete_item)
        (
          record {
            distinct = Distinct-remove_first f.heap r f.items v.distinct;
            allocated = All-remove_first (λ x. x < f.next) r f.items v.allocated;
          },
          λ x. removed-has f.heap item x f.items r v.distinct e,
        )
]

track_update-Sets :
    (k : List ℕ) (b : Bool) (f g : FeedbagList) (r : ℕ)
    → Sets k b f g
    → Sets k b f (track_update r g)
unfolding track_update
track_update-Sets k b f g r (v, h) = elim (Bool-cases (contains r g.pending_updates)) [
  | inl t ↦ rw t (v, h)
  | inr e ↦ rw e (record { distinct = v.distinct; allocated = v.allocated }, h)
]

pub every : {P : ℕ → Type 0} (rs : List ℕ) → ((x : ℕ) → P x) → All P rs
every [] h = tt
every (r ∷ rs) h = (h r, every rs h)

-- An item that is found is replaced by one with the same key.
replaced-Sets :
    (item stored : FeedbagItem) (f : FeedbagList) (r : ℕ)
    → IsValid f
    → key stored ≡ key item
    → find_item (matching f.heap item) f.heap f.items ≡ some r
    → Sets (key item) true f (record f { heap = update r stored f.heap })
replaced-Sets item stored f r v q e = (
  record {
    distinct =
        Distinct-same f.heap (update r stored f.heap) f.items (every f.items alike) v.distinct;
    allocated = v.allocated;
  },
  λ x.
      has-same f.heap (update r stored f.heap) x f.items (every f.items alike)
      ∙ unchanged f (key item) true (found-has f.heap item f.items r e) x,
)
  where
    old : key (f.heap r) ≡ key item
    old = bytes_eq→eq (key (f.heap r)) (key item) (found-key f.heap item f.items r e)

    alike : (x : ℕ) → key (update r stored f.heap x) ≡ key (f.heap x)
    alike x = elim (Bool-cases (r == x)) [
      | inl t ↦
          subst (λ z. key (update r stored f.heap z) ≡ key (f.heap z)) (==→eq r x t)
            (ap key (update_same r stored f.heap) ∙ q ∙ sym old)
      | inr g ↦ ap key (update_other r x stored f.heap g)
    ]

-- An item that is not found goes to the end.
inserted-Sets :
    (item stored : FeedbagItem) (f g : FeedbagList)
    → IsValid f
    → key stored ≡ key item
    → find_item (matching f.heap item) f.heap f.items ≡ none
    → g.heap ≡ update f.next stored f.heap
    → g.next ≡ f.next + 1
    → g.items ≡ f.items ++ f.next ∷ []
    → Sets (key item) true f g
inserted-Sets item stored f g v q e h n i = (
  record {
    distinct = subst (Distinct g.heap) (sym i) (
        subst (λ z. Distinct z (f.items ++ f.next ∷ [])) (sym h)
          (Distinct-append (update f.next stored f.heap) f.items f.next
            (All-two f.items apart (none-All f.heap (key item) f.items absent) v.allocated)
            (Distinct-same f.heap (update f.next stored f.heap) f.items old v.distinct)));
    allocated = subst (All (λ r. r < g.next)) (sym i) (
        All-append (λ r. r < g.next) f.items (f.next ∷ [])
          (All-map f.items (λ r l. omega (arith, l, n)) v.allocated) (omega (arith, n), tt));
  },
  λ x.
      ap (has g.heap x) i
      ∙ ap (λ z. has z x (f.items ++ f.next ∷ [])) h
      ∙ has-append (update f.next stored f.heap) x f.items f.next
      ∙ ap (λ z. if bytes_eq z x then true else has (update f.next stored f.heap) x f.items)
          (ap key (update_same f.next stored f.heap) ∙ q)
      ∙ ap (λ z. if bytes_eq (key item) x then true else z)
          (has-same f.heap (update f.next stored f.heap) x f.items old),
)
  where
    absent : has f.heap (key item) f.items ≡ false
    absent = missing-has f.heap item f.items e

    fresh : (r : ℕ) → r < f.next → update f.next stored f.heap r ≡ f.heap r
    fresh r l = update_other f.next r stored f.heap (ground (arith, l))

    old : All (λ r. key (update f.next stored f.heap r) ≡ key (f.heap r)) f.items
    old = All-map f.items (λ r l. ap key (fresh r l)) v.allocated

    apart :
        (r : ℕ)
        → bytes_eq (key (f.heap r)) (key item) ≡ false
        → r < f.next
        → ((r == f.next) ≡ false)
          × (bytes_eq
                (key (update f.next stored f.heap r))
                (key (update f.next stored f.heap f.next))
              ≡ false)
    apart r m l = (
      ground (arith, l),
      ap (λ z. bytes_eq (key z) (key (update f.next stored f.heap f.next))) (fresh r l)
          ∙ ap (bytes_eq (key (f.heap r))) (ap key (update_same f.next stored f.heap) ∙ q)
          ∙ m,
    )

upsert_normalized-Sets :
    (random : ℕ) (item : FeedbagItem) (f : FeedbagList)
    → IsValid f
    → Sets (key item) true f (upsert_normalized random item f).1
unfolding upsert_normalized key
upsert_normalized-Sets random item f v =
    elim (Option-cases (find_item (matching f.heap item) f.heap f.items)) [
      | inl e ↦
          rw (e, upsert_normalized)
            (inserted-Sets item (record item { item_id = gen_id random f }) f _ v refl e refl refl
              refl)
      | inr (r, e) ↦ elim (Bool-cases (is_equal (f.heap r) item)) [
        | inl t ↦
            rw (e, t, upsert_normalized)
              (v, unchanged f (key item) true (found-has f.heap item f.items r e))
        | inr n ↦
            rw (e, n, upsert_normalized)
              (track_update-Sets (key item) true f
                (record f { heap = update r (record item { item_id = (f.heap r).item_id }) f.heap })
                r (replaced-Sets item (record item { item_id = (f.heap r).item_id }) f r v refl e))
      ]
    ]

pub upsert_item-Sets :
    (random : ℕ) (item : FeedbagItem) (f : FeedbagList)
    → IsValid f
    → Sets (key item) true f (upsert_item random item f).1
unfolding upsert_item
upsert_item-Sets random item f v =
    subst (λ k. Sets k true f (upsert_normalized random (normalized item) f).1)
      (key-normalized item) (upsert_normalized-Sets random (normalized item) f v)
