-- ===== src/State/Instances/Adding.antt =====
-- A new instance.
use bencoscar.Prelude.{
  ℕ, ◌+◌, ◌≤◌, ◌<◌, ◌≡◌, refl, sym, ap, ◌∙◌, subst, List, [], ◌∷◌, ◌++◌, false, ◌==◌, ==_refl,
  arith, All, All-map, All-append, inl, inr, Bool-cases,
}
use bencoscar.Wire.Reader.{ok_injective, bind-ok, ok}
use bencoscar.State.Instances.{
  SessionInstance, Session, has_key, generate_instance_num, store, add_instance,
}
use bencoscar.State.Instances.Numbers.{NumberOf, Taken, generate_instance_num-NumberOf}
use bencoscar.State.Instances.Linked.{
  pointers, Entries, IsLinked, HasPointer, store-Entries, ==_sym,
}

free_key : (m : List (ℕ × ℕ)) (k : ℕ) → has_key m k ≡ false → All (λ p. (p.0 == k) ≡ false) m
free_key [] k h = tt
free_key ((k', r) ∷ m) k h = elim (Bool-cases (k == k')) [
  | inl t ↦ ground (arith, h, t)
  | inr f ↦ (==_sym k' k ∙ f, free_key m k (ground (arith, h, f)))
]

fresh_pointer :
    (m : List (ℕ × ℕ)) (next : ℕ) → All (λ p. p.1 < next) m → All (λ p. (next == p.1) ≡ false) m
fresh_pointer m next h = All-map m (λ p b. ground (arith, b)) h

-- One more entry at the end.
append-Entries :
    (heap : ℕ → SessionInstance) (m : List (ℕ × ℕ)) (k r : ℕ)
    → Entries heap m
    → All (λ p. (p.0 == k) ≡ false) m
    → All (λ p. (r == p.1) ≡ false) m
    → (heap r).instance_num ≡ k
    → (heap r).closed ≡ false
    → Entries heap (m ++ (k, r) ∷ [])
append-Entries heap [] k r e hk hr n c = (n, c, tt, tt, tt)
append-Entries heap ((k', r') ∷ m) k r (e1, e2, e3, e4, e5) (hk, hks) (hr, hrs) n c = (
  e1,
  e2,
  All-append (λ p. (k' == p.0) ≡ false) m ((k, r) ∷ []) e3 (hk, tt),
  All-append (λ p. (r' == p.1) ≡ false) m ((k, r) ∷ []) e4 (==_sym r' r ∙ hr, tt),
  append-Entries heap m k r e5 hks hrs n c,
)

pointers-append : (m : List (ℕ × ℕ)) (k r : ℕ) → pointers (m ++ (k, r) ∷ []) ≡ pointers m ++ r ∷ []
pointers-append [] k r = refl
pointers-append (p ∷ m) k r = ap (λ z. p.1 ∷ z) (pointers-append m k r)

last_pointer : (m : List (ℕ × ℕ)) (k r : ℕ) → HasPointer r (m ++ (k, r) ∷ [])
last_pointer [] k r = inl refl
last_pointer (p ∷ m) k r = inr (last_pointer m k r)

-- The session with one more instance.
abbrev pub with_new : ℕ → Session → Session
with_new num s = record s {
  heap =
      store s.next (record { instance_num = num; closed = false; signon_complete = false }) s.heap;
  next = s.next + 1;
  instances = s.instances ++ (num, s.next) ∷ [];
  instances_ordered = s.instances_ordered ++ s.next ∷ [];
}

stored : (heap : ℕ → SessionInstance) (r : ℕ) (x : SessionInstance) → store r x heap r ≡ x
unfolding store
stored heap r x = rw (==_refl r) refl

with_new-IsLinked :
    (s : Session) (num : ℕ)
    → IsLinked s
    → has_key s.instances num ≡ false
    → IsLinked (with_new num s)
with_new-IsLinked s num l h =
    let x : SessionInstance = record {
      instance_num = num;
      closed = false;
      signon_complete = false;
    } in
    let fresh = fresh_pointer s.instances s.next l.allocated in
    record {
      same = pointers-append s.instances num s.next ∙ ap (λ z. z ++ s.next ∷ []) l.same;
      entries =
          append-Entries (store s.next x s.heap) s.instances num s.next
            (store-Entries s.heap s.next x s.instances fresh l.entries) (free_key s.instances num h)
            fresh (ap (λ z. z.instance_num) (stored s.heap s.next x))
            (ap (λ z. z.closed) (stored s.heap s.next x));
      allocated =
          All-append (λ p. p.1 < s.next + 1) s.instances ((num, s.next) ∷ [])
            (All-map s.instances (λ p b. omega (arith, b)) l.allocated) (omega arith, tt);
    }

-- The least number from 1 to 255 that is free.
abbrev pub Numbered : Session → ℕ → Type 0
Numbered s n = (1 ≤ n) × (n < 256) × (has_key s.instances n ≡ false) × Taken s.instances 1 n

-- AddInstance on a linked session keeps it linked. The pointer is registered, and the instance has
-- the least number from 1 to 255 that none of the others has.
pub add_instance-IsLinked :
    (s t : Session) (r : ℕ)
    → IsLinked s
    → add_instance s ≡ ok (r, t)
    → IsLinked t × HasPointer r t.instances × Numbered s (t.heap r).instance_num
unfolding add_instance
add_instance-IsLinked s t r l e =
    let (num, en, e') = bind-ok (generate_instance_num s.instances) _ (r, t) e in
    let (h1, h2, h3, h4) =
      subst (NumberOf s.instances) en (generate_instance_num-NumberOf s.instances) in
    let x : SessionInstance = record {
      instance_num = num;
      closed = false;
      signon_complete = false;
    } in
    let n = ap (λ z. z.instance_num) (sym (stored s.heap s.next x)) in
    subst
      (λ z. IsLinked z.1 × HasPointer z.0 z.1.instances × Numbered s (z.1.heap z.0).instance_num)
      (ok_injective e')
      (
        with_new-IsLinked s num l h3,
        last_pointer s.instances num s.next,
        subst (Numbered s) n (h1, h2, h3, h4),
      )
