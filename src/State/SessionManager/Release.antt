-- ===== src/State/SessionManager/Release.antt =====
-- A call of AddSession that waits for a session is released by RemoveSession of the session.
use bencoscar.Prelude.{
  ℕ, ◌≡◌, refl, sym, ap, ◌∙◌, subst, List, some, true, false, ◌==◌, inl, inr, arith, Bool-cases,
  lookup, lookup-assign, update, update_same, update_other, All-lookup, ==→eq,
}
use bencoscar.Wire.Reader.{ok, ok_injective}
use bencoscar.State.ScreenNames.{new_ident_screen_name}
use bencoscar.State.SessionManager.{
  UserSession, SessionSlot, Memory, Manager, ident_of, set_group, remove_session,
}
use bencoscar.State.SessionManager.Calls.{
  waiting, creating, returning, joined, advance, System, Step, Steps, locks, runs, unlocks, removes,
  changes, here, after, start, chain,
}
use bencoscar.State.SessionManager.Invariant.Parts.{Entry, Awaited}
use bencoscar.State.SessionManager.Invariant.Created.{
  created_memory, created_manager, created_slot, first_group, created-ident,
}
use bencoscar.State.SessionManager.Invariant.Removed.{
  remove_session-Removal, closed_memory, without_name,
}
use bencoscar.State.SessionManager.Invariant.Kept.{Advanced, advance-Advanced}
use bencoscar.State.SessionManager.Invariant.Sound.{
  IsSound, Steps-kept, Steps-IsSound, removed-IsSound,
}

IsClosed : ℕ → System → Type 0
IsClosed c s = s.memory.closed c ≡ true

-- No step opens a channel.
closed-closed_memory :
    (c c' : ℕ) (mem : Memory) → mem.closed c ≡ true → (closed_memory c' mem).closed c ≡ true
closed-closed_memory c c' mem h = elim (Bool-cases (c' == c)) [
  | inl t ↦
      subst (λ z. (closed_memory c' mem).closed z ≡ true) (==→eq c' c t)
        (update_same c' true mem.closed)
  | inr f ↦ update_other c' c true mem.closed f ∙ h
]

removed-closed :
    (s : System) (p c : ℕ) (mem : Memory) (m : Manager)
    → remove_session p s.memory s.manager ≡ ok (mem, m)
    → IsSound s
    → s.memory.closed c ≡ true
    → mem.closed c ≡ true
removed-closed s p c mem m e h w = elim (remove_session-Removal p s.memory s.manager h.pool) [
  | inl (q, none_of) ↦ subst (λ z. z.0.closed c ≡ true) (ok_injective (sym q ∙ e)) w
  | inr (rec, l, r, q) ↦
      subst (λ z. z.0.closed c ≡ true) (ok_injective (sym q ∙ e))
        (closed-closed_memory c rec.removed s.memory w)
]

Step-closed :
    {s t : System} (c : ℕ)
    → Step s t
    → IsSound s
    → s.memory.closed c ≡ true
    → t.memory.closed c ≡ true
unfolding set_group
Step-closed c (locks i d multi e free) h w = w
Step-closed {s = s} c (runs i ctx mem m ph e) h w =
    let (p, a, l, o, k) =
      subst (Advanced s.memory s.manager (s.calls i)) e
        (advance-Advanced ctx s.memory s.manager (s.calls i) h.pool (h.awaited i)) in
    k c w
Step-closed c (unlocks i d o e) h w = w
Step-closed {s = s} c (removes p mem m e) h w = removed-closed s p c mem m e h w
Step-closed c (changes p g k) h w = w

Steps-closed :
    {s t : System} (c : ℕ)
    → Steps s t
    → IsSound s
    → s.memory.closed c ≡ true
    → t.memory.closed c ≡ true
Steps-closed c here h w = w
Steps-closed c (after r st) h w = Step-closed c st (Steps-kept r h) (Steps-closed c r h w)

-- The call can go on to its end, where its new session is the one that is registered for the name.
abbrev pub Completes : ℕ → List ℕ → System → Type 0
Completes i d s =
    (t : System) × (p : ℕ) × (r : ℕ) × (rec : SessionSlot) × Steps s t
    × (t.calls i ≡ returning d (joined p r))
    × (lookup (new_ident_screen_name d) t.manager.store ≡ some rec)
    × (rec.session ≡ p)
    × (ident_of t.memory p ≡ new_ident_screen_name d)

module _ (i : ℕ) (d : List ℕ) where
  creating-Completes : (s : System) → s.calls i ≡ creating d false → Completes i d s
  unfolding advance created_memory created_manager created_slot first_group
  creating-Completes s e = (
    record {
      memory = created_memory d false s.memory s.manager;
      manager = created_manager d false s.memory s.manager;
      calls = update i (returning d (joined s.memory.next 0)) s.calls;
    },
    s.memory.next,
    0,
    created_slot d false s.memory s.manager,
    after here (
        runs i false (created_memory d false s.memory s.manager)
          (created_manager d false s.memory s.manager) (returning d (joined s.memory.next 0))
          (ap (advance false s.memory s.manager) e)),
    update_same i (returning d (joined s.memory.next 0)) s.calls,
    lookup-assign (new_ident_screen_name d) (created_slot d false s.memory s.manager)
        s.manager.store,
    refl,
    created-ident d false s.memory s.manager,
  )

  waiting-Completes :
      (s : System) (rec : SessionSlot)
      → s.calls i ≡ waiting d rec
      → s.memory.closed rec.removed ≡ true
      → Completes i d s
  unfolding advance
  waiting-Completes s rec e w =
      let s' : System = record s { calls = update i (creating d false) s.calls } in
      let (t, p, r, rec', st, q1, q2, q3, q4) =
        creating-Completes s' (update_same i (creating d false) s.calls) in
      let woken : advance false s.memory s.manager (waiting d rec)
          ≡ ok (some (s.memory, s.manager, creating d false)) =
        rw (w, advance) refl in
      (
        t,
        p,
        r,
        rec',
        chain
            (after here (
              runs i false s.memory s.manager (creating d false)
                (ap (advance false s.memory s.manager) e ∙ woken)))
            st,
        q1,
        q2,
        q3,
        q4,
      )

-- RemoveSession of the session that a call waits for: it does not panic, and however the other
-- calls and the instances go on from there, the call can complete as long as it has not moved.
abbrev pub Releases : ℕ → List ℕ → SessionSlot → System → Type 0
Releases i d rec s =
    (mem : Memory) × (m : Manager) × (remove_session rec.session s.memory s.manager ≡ ok (mem, m))
    × ((u : System)
        → Steps (record s { memory = mem; manager = m }) u
        → u.calls i ≡ waiting d rec
        → Completes i d u)

-- After RemoveSession of the session of its slot, the channel of a waiting call is closed.
closes_channel :
    (s : System) (d : List ℕ) (rec : SessionSlot)
    → IsSound s
    → Awaited s.memory s.manager.store (waiting d rec)
    → (mem : Memory) × (m : Manager) × (remove_session rec.session s.memory s.manager ≡ ok (mem, m))
      × (mem.closed rec.removed ≡ true)
closes_channel s d rec h a = elim (remove_session-Removal rec.session s.memory s.manager h.pool) [
  | inl (q, none_of) ↦ elim a [
    | inl t ↦ (s.memory, s.manager, q, t)
    | inr o ↦ absurd (none_of rec (ap (λ z. lookup z s.manager.store) (named rec o) ∙ o) refl)
  ]
  | inr (rec', l, r, q) ↦ (
    closed_memory rec'.removed s.memory,
    without_name (ident_of s.memory rec.session) s.manager,
    q,
    elim a [
      | inl t ↦ closed-closed_memory rec.removed rec'.removed s.memory t
      | inr o ↦
          let e : some rec' ≡ some rec =
            sym l ∙ ap (λ z. lookup z s.manager.store) (named rec o) ∙ o in
          let same : rec' ≡ rec = ground (arith, e) in
          subst (λ z. (closed_memory z.removed s.memory).closed rec.removed ≡ true) (sym same)
            (update_same rec.removed true s.memory.closed)
    ],
  )
]
  where
    named :
        (x : SessionSlot)
        → lookup (new_ident_screen_name d) s.manager.store ≡ some x
        → ident_of s.memory x.session ≡ new_ident_screen_name d
    named x o =
        (All-lookup (Entry s.memory) (new_ident_screen_name d) x s.manager.store h.pool.entries o).0

-- In every system that can be reached, RemoveSession of the session that a call of AddSession waits
-- for does not panic, and from then on, whatever steps the others take, the call can go on to return
-- a new session, which is then the one that is registered for its name.
pub waiting-Releases :
    (sessions : ℕ → UserSession) (most : ℕ) (s : System) (i : ℕ) (d : List ℕ) (rec : SessionSlot)
    → Steps (start sessions most) s
    → s.calls i ≡ waiting d rec
    → Releases i d rec s
waiting-Releases sessions most s i d rec r e =
    let h = Steps-IsSound sessions most s r in
    let (mem, m, q, c) =
      closes_channel s d rec h (subst (Awaited s.memory s.manager.store) e (h.awaited i)) in
    (
      mem,
      m,
      q,
      λ u st w.
          waiting-Completes i d u rec w
            (Steps-closed rec.removed st (removed-IsSound s rec.session mem m q h) c),
    )
