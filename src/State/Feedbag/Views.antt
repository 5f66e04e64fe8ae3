-- ===== src/State/Feedbag/Views.antt =====
-- The list as a set of keys, and what upsertItem and deleteItem do to it.
use bencoscar.Prelude.{
  ℕ, ◌<◌, ◌≡◌, refl, sym, ap, ◌∙◌, subst, List, [], ◌∷◌, none, some, Bool, true, false, ◌==◌, inl,
  inr, All, All-map, arith, Bool-cases, bytes_eq, bytes_eq→eq, ==_refl, if◌then◌else◌,
}
use bencoscar.State.Feedbag.{FeedbagItem, FeedbagList, items_match, find_item, remove_first}
use bencoscar.State.Feedbag.Keys.{key, items_match-key}

-- Some item has the key.
unfoldable pub has : (ℕ → FeedbagItem) → List ℕ → List ℕ → Bool
has heap k [] = false
has heap k (r ∷ rs) = if bytes_eq (key (heap r)) k then true else has heap k rs

-- Different pointers, to items with different keys.
abbrev pub Distinct : (ℕ → FeedbagItem) → List ℕ → Type 0
Distinct heap [] = Unit {0}
Distinct heap (r ∷ rs) =
    All (λ x. ((r == x) ≡ false) × (bytes_eq (key (heap r)) (key (heap x)) ≡ false)) rs
    × Distinct heap rs

pub record IsValid (f : FeedbagList) : Type 0 where
  pub distinct : Distinct f.heap f.items
  pub allocated : All (λ r. r < f.next) f.items

pub bytes_eq_sym : (a b : List ℕ) → bytes_eq a b ≡ bytes_eq b a
bytes_eq_sym [] [] = refl
bytes_eq_sym [] (y ∷ ys) = refl
bytes_eq_sym (x ∷ xs) [] = refl
bytes_eq_sym (x ∷ xs) (y ∷ ys) = ground (arith, bytes_eq_sym xs ys)

-- Equal keys compare alike.
pub same_key : (a b k : List ℕ) → bytes_eq a b ≡ true → bytes_eq a k ≡ bytes_eq b k
same_key a b k h = ap (λ z. bytes_eq z k) (bytes_eq→eq a b h)

has-none :
    (heap : ℕ → FeedbagItem) (k : List ℕ) (rs : List ℕ)
    → All (λ x. bytes_eq k (key (heap x)) ≡ false) rs
    → has heap k rs ≡ false
unfolding has
has-none heap k [] h = refl
has-none heap k (r ∷ rs) (h, hs) = rw (bytes_eq_sym (key (heap r)) k ∙ h) (has-none heap k rs hs)

find-All :
    (p : FeedbagItem → Bool) (heap : ℕ → FeedbagItem) (P : ℕ → Type 0) (rs : List ℕ) (r : ℕ)
    → find_item p heap rs ≡ some r
    → All P rs
    → P r
unfolding find_item
find-All p heap P [] r e h = ground arith
find-All p heap P (x ∷ xs) r e (h, hs) = elim (Bool-cases (p (heap x))) [
  | inl t ↦ let q : some x ≡ some r = rw t at e in subst P (ground (arith, q)) h
  | inr f ↦ find-All p heap P xs r (rw f at e) hs
]

find-holds :
    (p : FeedbagItem → Bool) (heap : ℕ → FeedbagItem) (rs : List ℕ) (r : ℕ)
    → find_item p heap rs ≡ some r
    → p (heap r) ≡ true
unfolding find_item
find-holds p heap [] r e = ground arith
find-holds p heap (x ∷ xs) r e = elim (Bool-cases (p (heap x))) [
  | inl t ↦
      let q : some x ≡ some r = rw t at e in subst (λ z. p (heap z) ≡ true) (ground (arith, q)) t
  | inr f ↦ find-holds p heap xs r (rw f at e)
]

pub All-remove_first : (P : ℕ → Type 0) (r : ℕ) (rs : List ℕ) → All P rs → All P (remove_first r rs)
unfolding remove_first
All-remove_first P r [] h = tt
All-remove_first P r (x ∷ xs) (h, hs) = elim (Bool-cases (x == r)) [
  | inl t ↦ rw t hs
  | inr f ↦ rw f (h, All-remove_first P r xs hs)
]

pub Distinct-remove_first :
    (heap : ℕ → FeedbagItem) (r : ℕ) (rs : List ℕ)
    → Distinct heap rs
    → Distinct heap (remove_first r rs)
unfolding remove_first
Distinct-remove_first heap r [] h = tt
Distinct-remove_first heap r (x ∷ xs) (h, hs) = elim (Bool-cases (x == r)) [
  | inl t ↦ rw t hs
  | inr f ↦ rw f (
    All-remove_first (λ y. ((x == y) ≡ false) × (bytes_eq (key (heap x)) (key (heap y)) ≡ false)) r
        xs h,
    Distinct-remove_first heap r xs hs,
  )
]

module _ (heap : ℕ → FeedbagItem) (item : FeedbagItem) where
  abbrev pub matching : FeedbagItem → Bool
  matching existing = items_match existing item

  -- An item that is not found has no key in the list.
  pub missing-has :
      (rs : List ℕ) → find_item matching heap rs ≡ none → has heap (key item) rs ≡ false
  unfolding find_item has
  missing-has [] e = refl
  missing-has (x ∷ xs) e = elim (Bool-cases (items_match (heap x) item)) [
    | inl t ↦ let q : some x ≡ none = rw t at e in ground arith
    | inr f ↦ rw (sym (items_match-key (heap x) item) ∙ f) (missing-has xs (rw f at e))
  ]

  pub found-has :
      (rs : List ℕ) (r : ℕ) → find_item matching heap rs ≡ some r → has heap (key item) rs ≡ true
  unfolding find_item has
  found-has [] r e = ground arith
  found-has (x ∷ xs) r e = elim (Bool-cases (items_match (heap x) item)) [
    | inl t ↦ rw (sym (items_match-key (heap x) item) ∙ t) refl
    | inr f ↦ rw (sym (items_match-key (heap x) item) ∙ f) (found-has xs r (rw f at e))
  ]

  pub found-key :
      (rs : List ℕ) (r : ℕ)
      → find_item matching heap rs ≡ some r
      → bytes_eq (key (heap r)) (key item) ≡ true
  found-key rs r e = sym (items_match-key (heap r) item) ∙ find-holds matching heap rs r e

  -- Taking out the item that is found takes out its key, and no other.
  pub removed-has :
      (k : List ℕ) (rs : List ℕ) (r : ℕ)
      → Distinct heap rs
      → find_item matching heap rs ≡ some r
      → has heap k (remove_first r rs) ≡ (if bytes_eq (key item) k then false else has heap k rs)
  unfolding find_item has remove_first
  removed-has k [] r d e = ground arith
  removed-has k (x ∷ xs) r (d, ds) e = elim (Bool-cases (items_match (heap x) item)) [
    | inl t ↦
        let q : some x ≡ some r = rw t at e in
        let q' : x ≡ r = ground (arith, q) in
        let m : bytes_eq (key (heap x)) (key item) ≡ true =
          sym (items_match-key (heap x) item) ∙ t in
        rw (subst (λ z. (x == z) ≡ true) q' (==_refl x)) (first m)
    | inr f ↦
        let e' : find_item matching heap xs ≡ some r = rw f at e in
        let g : (x == r) ≡ false =
          find-All matching heap (λ y. (x == y) ≡ false) xs r e' (All-map xs (λ y z. z.0) d) in
        let m : bytes_eq (key (heap x)) (key item) ≡ false =
          sym (items_match-key (heap x) item) ∙ f in
        rw g (later m (removed-has k xs r ds e'))
  ]
    where
      first :
          bytes_eq (key (heap x)) (key item) ≡ true
          → has heap k xs ≡ (
              if bytes_eq (key item) k
              then false
              else if bytes_eq (key (heap x)) k
              then true
              else has heap k xs)
      first m = elim (Bool-cases (bytes_eq (key item) k)) [
        | inl t ↦
            let s : key (heap x) ≡ k =
              bytes_eq→eq (key (heap x)) (key item) m ∙ bytes_eq→eq (key item) k t in
            rw t (
              has-none heap k xs
                (All-map xs (λ y z. subst (λ w. bytes_eq w (key (heap y)) ≡ false) s z.1) d))
        | inr f ↦ rw (f, same_key (key (heap x)) (key item) k m ∙ f) refl
      ]

      later :
          bytes_eq (key (heap x)) (key item) ≡ false
          → has heap k (remove_first r xs)
            ≡ (if bytes_eq (key item) k then false else has heap k xs)
          → (if bytes_eq (key (heap x)) k then true else has heap k (remove_first r xs)) ≡ (
              if bytes_eq (key item) k
              then false
              else if bytes_eq (key (heap x)) k
              then true
              else has heap k xs)
      later m h = elim (Bool-cases (bytes_eq (key item) k)) [
        | inl t ↦
            let s : bytes_eq (key (heap x)) k ≡ false =
              subst (λ z. bytes_eq (key (heap x)) z ≡ false) (bytes_eq→eq (key item) k t) m in
            rw (t, s) (rw t at h)
        | inr f ↦ rw f (ap (λ z. if bytes_eq (key (heap x)) k then true else z) (rw f at h))
      ]
