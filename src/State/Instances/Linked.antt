-- ===== src/State/Instances/Linked.antt =====
-- The map and the ordered slice of a session hold the same instances.
use bencoscar.Prelude.{
  ℕ, suc, ◌<◌, ◌≡◌, refl, sym, ap, ◌∙◌, subst, List, [], ◌∷◌, map, true, false, ◌==◌, ==_refl,
  length, arith, All, ◌⊎◌, inl, inr, Bool-cases,
}
use bencoscar.State.Instances.{
  SessionInstance, Session, store, delete, remove_pointer, remove_instance, mark_closed,
}

abbrev pub pointers : List (ℕ × ℕ) → List ℕ
pointers = map (λ p. p.1)

-- Different keys and pointers; every entry has the number of its instance, which is open.
abbrev pub Entries : (ℕ → SessionInstance) → List (ℕ × ℕ) → Type 0
Entries heap [] = Unit {0}
Entries heap ((k, r) ∷ m) =
    ((heap r).instance_num ≡ k)
    × ((heap r).closed ≡ false)
    × All (λ p. (k == p.0) ≡ false) m
    × All (λ p. (r == p.1) ≡ false) m
    × Entries heap m

pub record IsLinked (s : Session) : Type 0 where
  pub same : pointers s.instances ≡ s.instances_ordered
  pub entries : Entries s.heap s.instances
  pub allocated : All (λ p. p.1 < s.next) s.instances

abbrev pub HasPointer : ℕ → List (ℕ × ℕ) → Type 0
HasPointer r [] = ⊥
HasPointer r ((k, r') ∷ m) = (r ≡ r') ⊎ HasPointer r m

-- What all entries satisfy, the entry of a registered pointer does.
entry_of :
    (heap : ℕ → SessionInstance) (P : ℕ × ℕ → Type 0) (r : ℕ) (m : List (ℕ × ℕ))
    → Entries heap m
    → HasPointer r m
    → All P m
    → P ((heap r).instance_num, r)
entry_of heap P r [] e h a = elim h [ ]
entry_of heap P r ((k, r') ∷ m) (e1, e2, e3, e4, e5) (inl q) (a, ps) =
    subst P (ap (λ z. (z, r')) (sym e1) ∙ ap (λ z. ((heap z).instance_num, z)) (sym q)) a
entry_of heap P r ((k, r') ∷ m) (e1, e2, e3, e4, e5) (inr h) (a, ps) = entry_of heap P r m e5 h ps

pub ==_sym : (a b : ℕ) → (a == b) ≡ (b == a)
==_sym a b = ground arith

-- Deleting a registered instance by its number takes the same pointer out as the loop does.
delete-remove_pointer :
    (heap : ℕ → SessionInstance) (r : ℕ) (m : List (ℕ × ℕ))
    → Entries heap m
    → HasPointer r m
    → pointers (delete (heap r).instance_num m) ≡ remove_pointer r (pointers m)
unfolding delete remove_pointer
delete-remove_pointer heap r [] e h = elim h [ ]
delete-remove_pointer heap r ((k, r') ∷ m) (e1, e2, e3, e4, e5) (inl q) =
    let g1 : ((heap r).instance_num == k) ≡ true =
      subst (λ z. (z == k) ≡ true) (sym e1 ∙ ap (λ z. (heap z).instance_num) (sym q)) (==_refl k) in
    let g2 : (r == r') ≡ true = subst (λ z. (r == z) ≡ true) q (==_refl r) in rw (g1, g2) refl
delete-remove_pointer heap r ((k, r') ∷ m) (e1, e2, e3, e4, e5) (inr h) =
    let f1 = entry_of heap (λ p. (k == p.0) ≡ false) r m e5 h e3 in
    let f2 = entry_of heap (λ p. (r' == p.1) ≡ false) r m e5 h e4 in
    let g1 : ((heap r).instance_num == k) ≡ false = ==_sym (heap r).instance_num k ∙ f1 in
    let g2 : (r == r') ≡ false = ==_sym r r' ∙ f2 in
    rw (g1, g2) (ap (λ z. r' ∷ z) (delete-remove_pointer heap r m e5 h))

-- Deleting keeps what all entries satisfy.
delete-All : (P : ℕ × ℕ → Type 0) (k : ℕ) (m : List (ℕ × ℕ)) → All P m → All P (delete k m)
unfolding delete
delete-All P k [] h = tt
delete-All P k ((k', r) ∷ m) (h, hs) = elim (Bool-cases (k == k')) [
  | inl t ↦ rw t hs
  | inr f ↦ rw f (h, delete-All P k m hs)
]

-- Closing an instance that is registered nowhere keeps the entries.
pub store-Entries :
    (heap : ℕ → SessionInstance) (r : ℕ) (x : SessionInstance) (m : List (ℕ × ℕ))
    → All (λ p. (r == p.1) ≡ false) m
    → Entries heap m
    → Entries (store r x heap) m
unfolding store
store-Entries heap r x [] h e = tt
store-Entries heap r x ((k, r') ∷ m) (h, hs) (e1, e2, e3, e4, e5) =
    (rw h e1, rw h e2, e3, e4, store-Entries heap r x m hs e5)

pub store_other :
    (heap : ℕ → SessionInstance) (r r' : ℕ) (x : SessionInstance)
    → (r == r') ≡ false
    → store r x heap r' ≡ heap r'
unfolding store
store_other heap r r' x h = rw h refl

-- After the instance is marked and taken out, the entries are those of the others.
delete-Entries :
    (heap : ℕ → SessionInstance) (r : ℕ) (x : SessionInstance) (m : List (ℕ × ℕ))
    → Entries heap m
    → HasPointer r m
    → Entries (store r x heap) (delete (heap r).instance_num m)
unfolding delete
delete-Entries heap r x [] e h = elim h [ ]
delete-Entries heap r x ((k, r') ∷ m) (e1, e2, e3, e4, e5) (inl q) =
    let g1 : ((heap r).instance_num == k) ≡ true =
      subst (λ z. (z == k) ≡ true) (sym e1 ∙ ap (λ z. (heap z).instance_num) (sym q)) (==_refl k) in
    rw g1 (store-Entries heap r x m (subst (λ z. All (λ p. (z == p.1) ≡ false) m) (sym q) e4) e5)
delete-Entries heap r x ((k, r') ∷ m) (e1, e2, e3, e4, e5) (inr h) =
    let f1 = entry_of heap (λ p. (k == p.0) ≡ false) r m e5 h e3 in
    let f2 = entry_of heap (λ p. (r' == p.1) ≡ false) r m e5 h e4 in
    let g1 : ((heap r).instance_num == k) ≡ false = ==_sym (heap r).instance_num k ∙ f1 in
    let g2 : (r == r') ≡ false = ==_sym r r' ∙ f2 in
    let rest = delete-Entries heap r x m e5 h in
    let other = store_other heap r r' x g2 in
    rw g1 (
      ap (λ z. z.instance_num) other ∙ e1,
      ap (λ z. z.closed) other ∙ e2,
      delete-All (λ p. (k == p.0) ≡ false) (heap r).instance_num m e3,
      delete-All (λ p. (r' == p.1) ≡ false) (heap r).instance_num m e4,
      rest,
    )

pub length-delete :
    (heap : ℕ → SessionInstance) (r : ℕ) (m : List (ℕ × ℕ))
    → Entries heap m
    → HasPointer r m
    → length m ≡ suc (length (delete (heap r).instance_num m))
unfolding delete
length-delete heap r [] e h = elim h [ ]
length-delete heap r ((k, r') ∷ m) (e1, e2, e3, e4, e5) (inl q) =
    let g1 : ((heap r).instance_num == k) ≡ true =
      subst (λ z. (z == k) ≡ true) (sym e1 ∙ ap (λ z. (heap z).instance_num) (sym q)) (==_refl k) in
    rw g1 refl
length-delete heap r ((k, r') ∷ m) (e1, e2, e3, e4, e5) (inr h) =
    let f1 = entry_of heap (λ p. (k == p.0) ≡ false) r m e5 h e3 in
    let g1 : ((heap r).instance_num == k) ≡ false = ==_sym (heap r).instance_num k ∙ f1 in
    rw g1 (ap suc (length-delete heap r m e5 h))

pub open_of :
    (heap : ℕ → SessionInstance) (r : ℕ) (m : List (ℕ × ℕ))
    → Entries heap m
    → HasPointer r m
    → (heap r).closed ≡ false
open_of heap r [] e h = elim h [ ]
open_of heap r ((k, r') ∷ m) (e1, e2, e3, e4, e5) (inl q) = ap (λ z. (heap z).closed) q ∙ e2
open_of heap r ((k, r') ∷ m) (e1, e2, e3, e4, e5) (inr h) = open_of heap r m e5 h

marked_num :
    (heap : ℕ → SessionInstance) (r : ℕ)
    → (store r (record (heap r) { closed = true }) heap r).instance_num ≡ (heap r).instance_num
unfolding store
marked_num heap r = rw (==_refl r) refl

-- The session without an instance that is closed, before the callback.
abbrev pub without : ℕ → Session → Session
without r s = record s {
  heap = store r (record (s.heap r) { closed = true }) s.heap;
  instances = delete (s.heap r).instance_num s.instances;
  instances_ordered = remove_pointer r s.instances_ordered;
}

pub removed-without : (r : ℕ) (s : Session) → remove_instance r (mark_closed r s) ≡ without r s
unfolding remove_instance mark_closed
removed-without r s =
    ap
      (λ k. record s {
        heap = store r (record (s.heap r) { closed = true }) s.heap;
        instances = delete k s.instances;
        instances_ordered = remove_pointer r s.instances_ordered;
      })
      (marked_num s.heap r)

pub without-IsLinked :
    (r : ℕ) (s : Session) → IsLinked s → HasPointer r s.instances → IsLinked (without r s)
without-IsLinked r s l h = record {
  same = delete-remove_pointer s.heap r s.instances l.entries h ∙ ap (remove_pointer r) l.same;
  entries = delete-Entries s.heap r (record (s.heap r) { closed = true }) s.instances l.entries h;
  allocated = delete-All (λ p. p.1 < s.next) (s.heap r).instance_num s.instances l.allocated;
}
