-- ===== src/State/UserLocks/Exclusion/Counts.antt =====
-- How many goroutines have references to the lock of a name, and how many hold it.
use bencoscar.Prelude.{
  ℕ, ◌+◌, ◌≤◌, ◌<◌, ◌≡◌, sym, ap, ◌∙◌, subst, List, [], ◌∷◌, ◌++◌, none, some, Bool, true, false,
  All, arith, bytes_eq, lookup, if◌then◌else◌,
}
use bencoscar.State.UserLocks.{Holder, outside, wants, holds, UserLocks}

abbrev pub refs_of : List ℕ → Holder → ℕ
refs_of n outside = 0
refs_of n (wants k p) = if bytes_eq n k then 1 else 0
refs_of n (holds k p) = if bytes_eq n k then 1 else 0

abbrev pub holds_of : List ℕ → Holder → ℕ
holds_of n outside = 0
holds_of n (wants k p) = 0
holds_of n (holds k p) = if bytes_eq n k then 1 else 0

abbrev pub refs : List ℕ → List Holder → ℕ
refs n [] = 0
refs n (h ∷ hs) = refs_of n h + refs n hs

abbrev pub holders : List ℕ → List Holder → ℕ
holders n [] = 0
holders n (h ∷ hs) = holds_of n h + holders n hs

pub refs-append :
    (n : List ℕ) (xs ys : List Holder) (h : Holder)
    → refs n (xs ++ h ∷ ys) ≡ refs n xs + refs n ys + refs_of n h
refs-append n [] ys h = omega arith
refs-append n (x ∷ xs) ys h = omega (arith, refs-append n xs ys h)

pub holders-append :
    (n : List ℕ) (xs ys : List Holder) (h : Holder)
    → holders n (xs ++ h ∷ ys) ≡ holders n xs + holders n ys + holds_of n h
holders-append n [] ys h = omega arith
holders-append n (x ∷ xs) ys h = omega (arith, holders-append n xs ys h)

-- A goroutine has the pointer that the map has.
abbrev pub Points : List (List ℕ × ℕ) → Holder → Type 0
Points m outside = Unit {0}
Points m (wants k p) = lookup k m ≡ some p
Points m (holds k p) = lookup k m ≡ some p

abbrev pub bit : Bool → ℕ
bit true = 1
bit false = 0

-- What is said of the lock `p` of the name `n`.
abbrev pub Present : UserLocks → List Holder → List ℕ → ℕ → Type 0
Present l threads n p =
    ((l.heap p).ref_count ≡ refs n threads)
    × (0 < refs n threads)
    × (holders n threads ≡ bit (l.heap p).mutex)
    × (p < l.next)

-- The reference count of every lock in the map is the number of goroutines that have a reference to
-- it, of which one holds it if the mutex is locked, and none otherwise; names that are not in the map
-- have no references; different names have different locks.
pub record IsCounted (l : UserLocks) (threads : List Holder) : Type 0 where
  pub absent : (n : List ℕ) → lookup n l.user_locks ≡ none → refs n threads ≡ 0
  pub present : (n : List ℕ) (p : ℕ) → lookup n l.user_locks ≡ some p → Present l threads n p
  pub apart :
      (n n' : List ℕ) (p : ℕ)
      → lookup n l.user_locks ≡ some p
      → lookup n' l.user_locks ≡ some p
      → n ≡ n'
  pub points : All (Points l.user_locks) threads

pub holders-refs : (n : List ℕ) (hs : List Holder) → holders n hs ≤ refs n hs
holders-refs n [] = omega arith
holders-refs n (outside ∷ hs) = omega (arith, holders-refs n hs)
holders-refs n (wants k p ∷ hs) = ground (arith, holders-refs n hs)
holders-refs n (holds k p ∷ hs) = omega (arith, holders-refs n hs)

-- What stands in a list, and what is put in its place.
pub All-at {κ} :
    (P : Holder → Type κ) (xs ys : List Holder) (h : Holder) → All P (xs ++ h ∷ ys) → P h
All-at P [] ys h (a, as') = a
All-at P (x ∷ xs) ys h (a, as') = All-at P xs ys h as'

pub All-replace {κ μ} :
    (P : Holder → Type κ) (Q : Holder → Type μ) (xs ys : List Holder) (h h' : Holder)
    → ((x : Holder) → P x → Q x)
    → Q h'
    → All P (xs ++ h ∷ ys)
    → All Q (xs ++ h' ∷ ys)
All-replace P Q [] ys h h' f q (a, as') = (q, rest ys as')
  where
    rest : (zs : List Holder) → All P zs → All Q zs
    rest [] b = tt
    rest (z ∷ zs) (b, bs) = (f z b, rest zs bs)
All-replace P Q (x ∷ xs) ys h h' f q (a, as') = (f x a, All-replace P Q xs ys h h' f q as')

-- One goroutine, at one place, changes what it has of the lock of the name `k`.
module _ (xs ys : List Holder) (h h' : Holder) (k : List ℕ) where
  -- The other names are not affected.
  abbrev pub Elsewhere : Type 0
  Elsewhere =
      (n : List ℕ)
      → bytes_eq n k ≡ false
      → (refs_of n h' ≡ refs_of n h) × (holds_of n h' ≡ holds_of n h)

  pub refs-elsewhere :
      Elsewhere
      → (n : List ℕ) → bytes_eq n k ≡ false
      → refs n (xs ++ h' ∷ ys) ≡ refs n (xs ++ h ∷ ys)
  refs-elsewhere e n f =
      refs-append n xs ys h'
      ∙ ap (λ z. refs n xs + refs n ys + z) (e n f).0
      ∙ sym (refs-append n xs ys h)

  pub holders-elsewhere :
      Elsewhere
      → (n : List ℕ) → bytes_eq n k ≡ false
      → holders n (xs ++ h' ∷ ys) ≡ holders n (xs ++ h ∷ ys)
  holders-elsewhere e n f =
      holders-append n xs ys h'
      ∙ ap (λ z. holders n xs + holders n ys + z) (e n f).1
      ∙ sym (holders-append n xs ys h)

  pub Present-elsewhere :
      (l l' : UserLocks) (n : List ℕ) (p : ℕ)
      → Elsewhere
      → bytes_eq n k ≡ false
      → l'.heap p ≡ l.heap p
      → l.next ≤ l'.next
      → Present l (xs ++ h ∷ ys) n p
      → Present l' (xs ++ h' ∷ ys) n p
  Present-elsewhere l l' n p e f q le (a, b, c, d) = (
    ap (λ z. z.ref_count) q ∙ a ∙ sym (refs-elsewhere e n f),
    subst (λ z. 0 < z) (sym (refs-elsewhere e n f)) b,
    holders-elsewhere e n f ∙ c ∙ sym (ap (λ z. bit z.mutex) q),
    omega (arith, d, le),
  )
