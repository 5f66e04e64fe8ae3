-- ===== src/State/UserLocks/Exclusion/Steps.antt =====
-- Every step of the goroutines keeps the counts.
use bencoscar.Prelude.{
  ℕ, ◌+◌, ◌-◌, ◌<◌, ◌≡◌, ◌≢◌, refl, sym, ap, ◌∙◌, subst, List, ◌∷◌, ◌++◌, none, some, true, false,
  ◌==◌, inl, inr, arith, Bool-cases, Option-cases, bytes_eq_refl, lookup, delete_key, update, ==→eq,
}
use bencoscar.Wire.Reader.{ok}
use bencoscar.State.UserLocks.{
  Holder, outside, wants, holds, UserLock, UserLocks, take_reference, lock_mutex, unlock_user,
}
use bencoscar.State.UserLocks.Exclusion.Counts.{
  refs_of, holds_of, refs, holders, refs-append, holders-append, Points, bit, IsCounted, All-at,
  Elsewhere,
}
use bencoscar.State.UserLocks.Exclusion.Entering.{new_locks, new-IsCounted}
use bencoscar.State.UserLocks.Exclusion.Changing.{changed-IsCounted, dropped-IsCounted}

self : (n : List ℕ) → refs_of n (wants n 0) ≡ 1
self n = rw (bytes_eq_refl n) refl

module _ (l : UserLocks) (xs ys : List Holder) (sn : List ℕ) where
  pub take_reference-IsCounted :
      IsCounted l (xs ++ outside ∷ ys)
      → IsCounted (take_reference sn l).1 (xs ++ wants sn (take_reference sn l).0 ∷ ys)
  unfolding take_reference new_locks
  take_reference-IsCounted c = elim (Option-cases (lookup sn l.user_locks)) [
    | inl e ↦ rw (e, take_reference) (new-IsCounted l xs ys sn e c)
    | inr (p, e) ↦
        let (a, b, d, f) = c.present sn p e in
        let r1 = refs-append sn xs ys (wants sn p) in
        let r2 = refs-append sn xs ys outside in
        let h1 = holders-append sn xs ys (wants sn p) in
        let h2 = holders-append sn xs ys outside in
        rw (e, take_reference)
          (changed-IsCounted l xs ys outside (wants sn p) sn p e (λ n g. rw g (refl, refl)) c
            (record (l.heap p) { ref_count = (l.heap p).ref_count + 1 })
            (omega (arith, a, r1, r2, self sn)) (omega (arith, r1, self sn))
            (omega (arith, h1, h2, d)) e)
  ]

  pub lock_mutex-IsCounted :
      (p : ℕ) (l' : UserLocks)
      → lock_mutex p l ≡ some l'
      → IsCounted l (xs ++ wants sn p ∷ ys)
      → IsCounted l' (xs ++ holds sn p ∷ ys)
  unfolding lock_mutex
  lock_mutex-IsCounted p l' q c = elim (Bool-cases (l.heap p).mutex) [
    | inl t ↦ let k : none ≡ some l' = rw (t, lock_mutex) at q in ground arith
    | inr f ↦
        let e : lookup sn l.user_locks ≡ some p =
          All-at (Points l.user_locks) xs ys (wants sn p) c.points in
        let (a, b, d, g) = c.present sn p e in
        let x : UserLock = record (l.heap p) { mutex = true } in
        let k : some (record l { heap = update p x l.heap }) ≡ some l' = rw (f, lock_mutex) at q in
        let r1 = refs-append sn xs ys (wants sn p) in
        let r2 = refs-append sn xs ys (holds sn p) in
        let h1 = holders-append sn xs ys (wants sn p) in
        let h2 = holders-append sn xs ys (holds sn p) in
        let o : holders sn (xs ++ wants sn p ∷ ys) ≡ 0 = d ∙ ap bit f in
        subst (λ z. IsCounted z (xs ++ holds sn p ∷ ys)) (ground (arith, k))
          (changed-IsCounted l xs ys (wants sn p) (holds sn p) sn p e (λ n u. rw u (refl, refl)) c x
            (omega (arith, a, r1, r2)) (omega (arith, r2, self sn))
            (omega (arith, h1, h2, o, self sn)) e)
  ]

  -- The mutex of a lock that a goroutine holds is locked.
  holds-mutex :
      (p : ℕ)
      → IsCounted l (xs ++ holds sn p ∷ ys)
      → lookup sn l.user_locks ≡ some p
      → (l.heap p).mutex ≡ true
  holds-mutex p c e = elim (Bool-cases (l.heap p).mutex) [
    | inl t ↦ t
    | inr f ↦
        let (a, b, d, g) = c.present sn p e in
        let o : holders sn (xs ++ holds sn p ∷ ys) ≡ 0 = d ∙ ap bit f in
        let z : ⊥ = omega (arith, holders-append sn xs ys (holds sn p), o, self sn) in absurd z
  ]

  pub unlock_user-IsCounted :
      (p : ℕ)
      → IsCounted l (xs ++ holds sn p ∷ ys)
      → (l' : UserLocks) × (unlock_user sn l ≡ ok l') × IsCounted l' (xs ++ outside ∷ ys)
  unfolding unlock_user
  unlock_user-IsCounted p c = elim (Bool-cases (count == 0)) [
    | inl t ↦ (
      record l { heap = update p x l.heap; user_locks = delete_key sn l.user_locks },
      rw (e, m, t, unlock_user) refl,
      dropped-IsCounted l xs ys (holds sn p) outside sn p e w c x (zero_left t) tt,
    )
    | inr f ↦ (
      record l { heap = update p x l.heap },
      rw (e, m, f, unlock_user) refl,
      changed-IsCounted l xs ys (holds sn p) outside sn p e w c x counted (some_left f)
          (omega (arith, h1, h2, o, self sn)) tt,
    )
  ]
    where
      e : lookup sn l.user_locks ≡ some p
      e = All-at (Points l.user_locks) xs ys (holds sn p) c.points

      m : (l.heap p).mutex ≡ true
      m = holds-mutex p c e

      count : ℕ
      count = (l.heap p).ref_count - 1

      x : UserLock
      x = record { mutex = false; ref_count = count }

      w : Elsewhere xs ys (holds sn p) outside sn
      w n u = rw u (refl, refl)

      r1 : refs sn (xs ++ holds sn p ∷ ys) ≡ refs sn xs + refs sn ys + refs_of sn (holds sn p)
      r1 = refs-append sn xs ys (holds sn p)

      r2 : refs sn (xs ++ outside ∷ ys) ≡ refs sn xs + refs sn ys + 0
      r2 = refs-append sn xs ys outside

      h1 :
          holders sn (xs ++ holds sn p ∷ ys)
          ≡ holders sn xs + holders sn ys + holds_of sn (holds sn p)
      h1 = holders-append sn xs ys (holds sn p)

      h2 : holders sn (xs ++ outside ∷ ys) ≡ holders sn xs + holders sn ys + 0
      h2 = holders-append sn xs ys outside

      o : holders sn (xs ++ holds sn p ∷ ys) ≡ 1
      o = (c.present sn p e).2 ∙ ap bit m

      counted : count ≡ refs sn (xs ++ outside ∷ ys)
      counted = omega (arith, (c.present sn p e).0, r1, r2, self sn)

      zero_left : (count == 0) ≡ true → refs sn (xs ++ outside ∷ ys) ≡ 0
      zero_left t = sym counted ∙ ==→eq count 0 t

      some_left : (count == 0) ≡ false → 0 < refs sn (xs ++ outside ∷ ys)
      some_left f = let g : count ≢ 0 = ground (arith, f) in omega (arith, g, counted)
