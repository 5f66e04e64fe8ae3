-- ===== src/State/UserLocks/Exclusion/Entering.antt =====
-- The first reference to the lock of a name keeps the counts.
use bencoscar.Prelude.{
  ℕ, ◌+◌, ◌<◌, ◌≡◌, refl, sym, ap, ◌∙◌, subst, List, ◌∷◌, ◌++◌, none, some, false, inl, inr, ◌⊎◌,
  arith, Bool-cases, bytes_eq, bytes_eq→eq, bytes_eq_refl, lookup, assign, lookup-assign,
  lookup-assign_other, update, update_same, update_other,
}
use bencoscar.State.UserLocks.{Holder, outside, wants, holds, UserLocks}
use bencoscar.State.UserLocks.Exclusion.Counts.{
  refs_of, refs, holders, refs-append, holders-append, Points, bit, Present, IsCounted,
  holders-refs, All-replace, Elsewhere, refs-elsewhere, Present-elsewhere,
}

module _ (l : UserLocks) (xs ys : List Holder) (sn : List ℕ) where
  entering : (p : ℕ) → Elsewhere xs ys outside (wants sn p) sn
  entering p n f = rw f (refl, refl)

  -- The first reference to the lock of a name.
  module _ (e : lookup sn l.user_locks ≡ none) where
    unfoldable pub new_locks : UserLocks
    new_locks = record {
      heap = update l.next (record { mutex = false; ref_count = 1 }) l.heap;
      next = l.next + 1;
      user_locks = assign sn l.next l.user_locks;
    }

    new_lookup :
        (n : List ℕ) (p : ℕ)
        → lookup n (assign sn l.next l.user_locks) ≡ some p
        → ((n ≡ sn) × (p ≡ l.next)) ⊎ ((bytes_eq n sn ≡ false) × (lookup n l.user_locks ≡ some p))
    new_lookup n p q = elim (Bool-cases (bytes_eq n sn)) [
      | inl t ↦
          let s : some l.next ≡ some p =
            sym (lookup-assign sn l.next l.user_locks)
            ∙ ap (λ z. lookup z (assign sn l.next l.user_locks)) (sym (bytes_eq→eq n sn t))
            ∙ q in
          inl (bytes_eq→eq n sn t, ground (arith, s))
      | inr f ↦ inr (f, sym (other n f) ∙ q)
    ]
      where
        other :
            (n : List ℕ)
            → bytes_eq n sn ≡ false
            → lookup n (assign sn l.next l.user_locks) ≡ lookup n l.user_locks
        other n f =
            lookup-assign_other sn n l.next l.user_locks
              (λ z. ground (arith, f, bytes_eq_refl n, ap (λ y. bytes_eq n y) z))

    new_absent :
        (n : List ℕ)
        → lookup n (assign sn l.next l.user_locks) ≡ none
        → bytes_eq n sn ≡ false × (lookup n l.user_locks ≡ none)
    new_absent n q = elim (Bool-cases (bytes_eq n sn)) [
      | inl t ↦
          let s : some l.next ≡ none =
            sym (lookup-assign sn l.next l.user_locks)
            ∙ ap (λ z. lookup z (assign sn l.next l.user_locks)) (sym (bytes_eq→eq n sn t))
            ∙ q in
          ground arith
      | inr f ↦ (
        f,
        sym (
              lookup-assign_other sn n l.next l.user_locks
                (λ z. ground (arith, f, bytes_eq_refl n, ap (λ y. bytes_eq n y) z)))
            ∙ q,
      )
    ]

    pub new-IsCounted :
        IsCounted l (xs ++ outside ∷ ys) → IsCounted new_locks (xs ++ wants sn l.next ∷ ys)
    unfolding new_locks
    new-IsCounted h = record {
      absent = λ n q.
          let (f, o) = new_absent n q in
          refs-elsewhere xs ys outside (wants sn l.next) sn (entering l.next) n f ∙ h.absent n o;
      present = λ n p q. elim (new_lookup n p q) [
        | inl (a, b) ↦
            subst (λ z. Present new_locks (xs ++ wants sn l.next ∷ ys) z p) (sym a)
              (subst (λ z. Present new_locks (xs ++ wants sn l.next ∷ ys) sn z) (sym b)
                (
                  ap (λ z. z.ref_count) stored ∙ omega (arith, first),
                  omega (arith, first),
                  omega (arith, free) ∙ sym (ap (λ z. bit z.mutex) stored),
                  omega arith,
                ))
        | inr (f, o) ↦
            let (a, b, c, d) = h.present n p o in
            Present-elsewhere xs ys outside (wants sn l.next) sn l new_locks n p (entering l.next) f
              (update_other l.next p _ l.heap (ground (arith, d))) (omega arith) (a, b, c, d)
      ];
      apart = λ n n' p q q'. elim (new_lookup n p q) [
        | inl (a, b) ↦ elim (new_lookup n' p q') [
          | inl (a', b') ↦ a ∙ sym a'
          | inr (f', o') ↦ let (u, v, w, d) = h.present n' p o' in absurd (below p b d)
        ]
        | inr (f, o) ↦ elim (new_lookup n' p q') [
          | inl (a', b') ↦ let (u, v, w, d) = h.present n p o in absurd (below p b' d)
          | inr (f', o') ↦ h.apart n n' p o o'
        ]
      ];
      points =
          All-replace (Points l.user_locks) (Points new_locks.user_locks) xs ys outside
            (wants sn l.next) kept (lookup-assign sn l.next l.user_locks) h.points;
    }
      where
        stored : new_locks.heap l.next ≡ record { mutex = false; ref_count = 1 }
        stored = update_same l.next (record { mutex = false; ref_count = 1 }) l.heap

        none_before : refs sn (xs ++ outside ∷ ys) ≡ 0
        none_before = h.absent sn e

        first : refs sn (xs ++ wants sn l.next ∷ ys) ≡ 1
        first =
            let q : refs_of sn (wants sn l.next) ≡ 1 = rw (bytes_eq_refl sn) refl in
            omega (
              arith,
              refs-append sn xs ys (wants sn l.next),
              refs-append sn xs ys outside,
              none_before,
              q,
            )

        free : holders sn (xs ++ wants sn l.next ∷ ys) ≡ 0
        free = omega (
          arith,
          holders-append sn xs ys (wants sn l.next),
          holders-append sn xs ys outside,
          none_before,
          holders-refs sn (xs ++ outside ∷ ys),
        )

        below : (p : ℕ) → p ≡ l.next → ¬ (p < l.next)
        below p b d = omega (arith, b, d)

        moved :
            (k : List ℕ) (p : ℕ)
            → lookup k l.user_locks ≡ some p
            → lookup k new_locks.user_locks ≡ some p
        moved k p q =
            lookup-assign_other sn k l.next l.user_locks (λ z.
              let s : none ≡ some p = sym e ∙ ap (λ y. lookup y l.user_locks) z ∙ q in ground arith)
            ∙ q

        kept : (x : Holder) → Points l.user_locks x → Points new_locks.user_locks x
        kept outside q = tt
        kept (wants k p) q = moved k p q
        kept (holds k p) q = moved k p q
