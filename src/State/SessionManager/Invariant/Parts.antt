-- ===== src/State/SessionManager/Invariant/Parts.antt =====
-- The invariant of the pool, and how the parts of AddSession and RemoveSession keep it.
use bencoscar.Prelude.{
  ℕ, ◌≤◌, ◌<◌, ◌≡◌, ◌≢◌, refl, sym, ap, ◌∙◌, subst, List, [], ◌∷◌, some, true, false, ◌==◌, ◌⊎◌,
  inl, inr, All, All-map, arith, Bool-cases, bytes_eq, bytes_eq→eq, bytes_eq_refl, lookup,
  bytes_eq_ne, update_same, update_other, ==→eq,
}
use bencoscar.State.Instances.{Session}
use bencoscar.State.ScreenNames.{new_ident_screen_name}
use bencoscar.State.SessionManager.{SessionSlot, Memory, ident_of, set_group, find_rec}
use bencoscar.State.SessionManager.Calls.{
  AddPhase, idle, locked, found, joining, waiting, creating, returning, HasLock,
}

abbrev pub Entry : Memory → List ℕ × SessionSlot → Type 0
Entry mem (n, rec) =
    (ident_of mem rec.session ≡ n) × (rec.session < mem.next) × (rec.removed < mem.next_channel)

-- Every slot has the session of its name; the channels of the slots are open and different.
pub record IsPool (mem : Memory) (store : List (List ℕ × SessionSlot)) : Type 0 where
  pub entries : All (Entry mem) store
  pub opened :
      (n : List ℕ) (rec : SessionSlot) → lookup n store ≡ some rec → mem.closed rec.removed ≡ false
  pub apart :
      (n n' : List ℕ) (rec rec' : SessionSlot)
      → lookup n store ≡ some rec
      → lookup n' store ≡ some rec'
      → rec.removed ≡ rec'.removed
      → n ≡ n'
  pub unused : (c : ℕ) → mem.next_channel ≤ c → mem.closed c ≡ false

-- The slot of a call is still there, or its session has been removed.
abbrev pub Awaited : Memory → List (List ℕ × SessionSlot) → AddPhase → Type 0
Awaited mem store idle = Unit {0}
Awaited mem store (locked d multi) = Unit {0}
Awaited mem store (found d multi rec) =
    (mem.closed rec.removed ≡ true) ⊎ (lookup (new_ident_screen_name d) store ≡ some rec)
Awaited mem store (joining d rec) = Unit {0}
Awaited mem store (waiting d rec) =
    (mem.closed rec.removed ≡ true) ⊎ (lookup (new_ident_screen_name d) store ≡ some rec)
Awaited mem store (creating d multi) = Unit {0}
Awaited mem store (returning d o) = Unit {0}

-- A call that is waiting, or about to wait, depends on one name and its slot alone.
pub Awaited-kept :
    (mem mem' : Memory) (store store' : List (List ℕ × SessionSlot)) (ph : AddPhase)
    → ((n : List ℕ) (rec : SessionSlot)
        → HasLock ph n
        → (mem.closed rec.removed ≡ true) ⊎ (lookup n store ≡ some rec)
        → (mem'.closed rec.removed ≡ true) ⊎ (lookup n store' ≡ some rec))
    → Awaited mem store ph
    → Awaited mem' store' ph
Awaited-kept mem mem' store store' idle f h = h
Awaited-kept mem mem' store store' (locked d multi) f h = h
Awaited-kept mem mem' store store' (found d multi rec) f h = f (new_ident_screen_name d) rec refl h
Awaited-kept mem mem' store store' (joining d rec) f h = h
Awaited-kept mem mem' store store' (waiting d rec) f h = f (new_ident_screen_name d) rec refl h
Awaited-kept mem mem' store store' (creating d multi) f h = h
Awaited-kept mem mem' store store' (returning d o) f h = h

-- A slot found by its session's name is the slot of that name.
pub find_rec-lookup :
    (mem : Memory) (n : List ℕ) (store : List (List ℕ × SessionSlot))
    → All (Entry mem) store
    → find_rec mem n store ≡ lookup n store
unfolding find_rec
find_rec-lookup mem n [] h = refl
find_rec-lookup mem n ((k, rec) ∷ m) ((e, l, c), hs) = elim (Bool-cases (bytes_eq k n)) [
  | inl t ↦
      let q : ident_of mem rec.session ≡ n = e ∙ bytes_eq→eq k n t in
      let g : bytes_eq n (ident_of mem rec.session) ≡ true =
        subst (λ z. bytes_eq n z ≡ true) (sym q) (bytes_eq_refl n) in
      rw (t, g) refl
  | inr f ↦
      let ne : n ≢ k = λ q.
        absurd
          (subst (λ z. bytes_eq k z ≢ false) (sym q) (λ z. ground (arith, bytes_eq_refl k, z)) f) in
      let g : bytes_eq n (ident_of mem rec.session) ≡ false =
        subst (λ z. bytes_eq n z ≡ false) (sym e) (bytes_eq_ne n k ne) in
      rw (f, g) (find_rec-lookup mem n m hs)
]

module _ (mem : Memory) (p : ℕ) (g : Session) where
  ident_of-set_group : (r : ℕ) → ident_of (set_group p g mem) r ≡ ident_of mem r
  unfolding set_group
  ident_of-set_group r = elim (Bool-cases (p == r)) [
    | inl t ↦
        subst (λ z. ident_of (set_group p g mem) z ≡ ident_of mem z) (==→eq p r t)
          (ap (λ z. z.ident_screen_name)
            (update_same p (record (mem.sessions p) { group = g }) mem.sessions))
    | inr f ↦
        ap (λ z. z.ident_screen_name)
          (update_other p r (record (mem.sessions p) { group = g }) mem.sessions f)
  ]

  -- Whatever happens to the instances of a session, the pool is kept.
  pub set_group-IsPool :
      (store : List (List ℕ × SessionSlot)) → IsPool mem store → IsPool (set_group p g mem) store
  unfolding set_group
  set_group-IsPool store h = record {
    entries = All-map store (λ e x. (ident_of-set_group e.1.session ∙ x.0, x.1, x.2)) h.entries;
    opened = h.opened;
    apart = h.apart;
    unused = h.unused;
  }

  pub set_group-Awaited :
      (store : List (List ℕ × SessionSlot)) (ph : AddPhase)
      → Awaited mem store ph
      → Awaited (set_group p g mem) store ph
  unfolding set_group
  set_group-Awaited store ph = Awaited-kept mem (set_group p g mem) store store ph (λ n rec l w. w)
