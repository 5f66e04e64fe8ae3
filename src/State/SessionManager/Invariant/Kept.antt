-- ===== src/State/SessionManager/Invariant/Kept.antt =====
-- Every part of AddSession keeps the pool.
use bencoscar.Prelude.{
  ℕ, ◌≡◌, refl, ◌∙◌, List, Option, none, some, Bool, true, false, leb, inl, inr, Bool-cases,
  Option-cases, lookup,
}
use bencoscar.Wire.Reader.{Result, ok, err}
use bencoscar.State.Instances.{Session, add_instance, close_session, instance_count, new_session}
use bencoscar.State.ScreenNames.{new_ident_screen_name}
use bencoscar.State.SessionManager.{SessionSlot, Memory, Manager, set_group, close_pool_session}
use bencoscar.State.SessionManager.Calls.{
  AddPhase, idle, locked, found, joining, waiting, creating, returning, HasLock, lock_of, advance,
}
use bencoscar.State.SessionManager.Invariant.Parts.{
  IsPool, Awaited, find_rec-lookup, set_group-IsPool, set_group-Awaited,
}
use bencoscar.State.SessionManager.Invariant.Created.{
  first_group, created_slot, created_memory, created_manager, created-IsPool, created-Awaited,
}

-- A part of one call keeps the pool, its lock, and what the calls for other names wait for.
abbrev pub Carried : Memory → Manager → AddPhase → Memory → Manager → AddPhase → Type 0
Carried mem m ph mem' m' ph' =
    IsPool mem' m'.store
    × Awaited mem' m'.store ph'
    × (lock_of ph' ≡ lock_of ph)
    × ((other : AddPhase)
        → ((n : List ℕ) → HasLock ph n → ¬ HasLock other n)
        → Awaited mem m.store other
        → Awaited mem' m'.store other)
    × ((c : ℕ) → mem.closed c ≡ true → mem'.closed c ≡ true)

abbrev pub Advanced :
    Memory → Manager → AddPhase → Result (Option (Memory × Manager × AddPhase)) → Type 0
Advanced mem m ph (ok (some (mem', m', ph'))) = Carried mem m ph mem' m' ph'
Advanced mem m ph (ok none) = Unit {0}
Advanced mem m ph (err e) = Unit {0}

module _ (ctx : Bool) (mem : Memory) (m : Manager) where
  advance_locked :
      (d : List ℕ) (multi : Bool)
      → IsPool mem m.store
      → Advanced mem m (locked d multi) (advance ctx mem m (locked d multi))
  unfolding advance
  advance_locked d multi h = elim (Option-cases (lookup (new_ident_screen_name d) m.store)) [
    | inl e ↦
        rw (find_rec-lookup mem (new_ident_screen_name d) m.store h.entries ∙ e, advance)
          (h, tt, refl, λ other k w. w, λ c z. z)
    | inr (rec, e) ↦
        rw (find_rec-lookup mem (new_ident_screen_name d) m.store h.entries ∙ e, advance)
          (h, inr e, refl, λ other k w. w, λ c z. z)
  ]

  advance_found :
      (d : List ℕ) (multi : Bool) (rec : SessionSlot)
      → IsPool mem m.store
      → Awaited mem m.store (found d multi rec)
      → Advanced mem m (found d multi rec) (advance ctx mem m (found d multi rec))
  unfolding advance close_pool_session set_group
  advance_found d true rec h a = elim (Bool-cases rec.multi_session) [
    | inl t ↦
        elim (Bool-cases
          (leb m.max_concurrent_sessions (instance_count (mem.sessions rec.session).group))) [
            | inl t' ↦ rw (t, t', advance) (h, tt, refl, λ other k w. w, λ c z. z)
            | inr f' ↦ rw (t, f', advance) (h, tt, refl, λ other k w. w, λ c z. z)
          ]
    | inr f ↦
        rw (f, advance)
          (
            set_group-IsPool mem rec.session (close_session (mem.sessions rec.session).group)
                m.store h,
            tt,
            refl,
            λ other k.
                set_group-Awaited mem rec.session (close_session (mem.sessions rec.session).group)
                  m.store other,
            λ c z. z,
          )
  ]
  advance_found d false rec h a = (
    set_group-IsPool mem rec.session (close_session (mem.sessions rec.session).group) m.store h,
    set_group-Awaited mem rec.session (close_session (mem.sessions rec.session).group) m.store
        (waiting d rec) a,
    refl,
    λ other k.
        set_group-Awaited mem rec.session (close_session (mem.sessions rec.session).group) m.store
          other,
    λ c z. z,
  )

  advance_joining :
      (d : List ℕ) (rec : SessionSlot)
      → IsPool mem m.store
      → Advanced mem m (joining d rec) (advance ctx mem m (joining d rec))
  unfolding advance set_group
  advance_joining d rec h = added (add_instance (mem.sessions rec.session).group) refl
    where
      added :
          (r : Result (ℕ × Session))
          → add_instance (mem.sessions rec.session).group ≡ r
          → Advanced mem m (joining d rec) (advance ctx mem m (joining d rec))
      added (ok a) e =
          rw (e, advance)
            (
              set_group-IsPool mem rec.session a.1 m.store h,
              tt,
              refl,
              λ other k. set_group-Awaited mem rec.session a.1 m.store other,
              λ c z. z,
            )
      added (err x) e = rw (e, advance) tt

  advance_waiting :
      (d : List ℕ) (rec : SessionSlot)
      → IsPool mem m.store
      → Advanced mem m (waiting d rec) (advance ctx mem m (waiting d rec))
  unfolding advance
  advance_waiting d rec h = elim (Bool-cases ctx) [
    | inl t ↦ rw (t, advance) (h, tt, refl, λ other k w. w, λ c z. z)
    | inr f ↦ elim (Bool-cases (mem.closed rec.removed)) [
      | inl t ↦ rw (f, t, advance) (h, tt, refl, λ other k w. w, λ c z. z)
      | inr g ↦ rw (f, g, advance) tt
    ]
  ]

  advance_creating :
      (d : List ℕ) (multi : Bool)
      → IsPool mem m.store
      → Advanced mem m (creating d multi) (advance ctx mem m (creating d multi))
  unfolding advance created_memory created_manager created_slot first_group new_session
  advance_creating d multi h = (
    created-IsPool d multi mem m h,
    tt,
    refl,
    λ other k w. created-Awaited d multi mem m other (k (new_ident_screen_name d) refl) w,
    λ c z. z,
  )

  pub advance-Advanced :
      (ph : AddPhase)
      → IsPool mem m.store
      → Awaited mem m.store ph
      → Advanced mem m ph (advance ctx mem m ph)
  unfolding advance
  advance-Advanced idle h a = tt
  advance-Advanced (locked d multi) h a = advance_locked d multi h
  advance-Advanced (found d multi rec) h a = advance_found d multi rec h a
  advance-Advanced (joining d rec) h a = advance_joining d rec h
  advance-Advanced (waiting d rec) h a = advance_waiting d rec h
  advance-Advanced (creating d multi) h a = advance_creating d multi h
  advance-Advanced (returning d o) h a = tt
