-- ===== src/State/UserLocks/Exclusion/Changing.antt =====
-- Changing one lock, and dropping it, keep the counts.
use bencoscar.Prelude.{
  ℕ, ◌<◌, ◌≡◌, ◌≢◌, sym, ap, ◌∙◌, subst, List, [], ◌∷◌, ◌++◌, none, some, true, false, ◌==◌, inl,
  inr, All, arith, Bool-cases, bytes_eq, bytes_eq→eq, bytes_eq_refl, lookup, delete_key,
  lookup-delete_key, lookup-delete_key_other, update, update_same, update_other, ==→eq,
}
use bencoscar.State.UserLocks.{Holder, outside, wants, holds, UserLock, UserLocks}
use bencoscar.State.UserLocks.Exclusion.Counts.{
  refs_of, refs, holders, Points, bit, Present, IsCounted, All-replace, Elsewhere, refs-elsewhere,
  Present-elsewhere,
}

module _ (l : UserLocks) (xs ys : List Holder) (h h' : Holder) (sn : List ℕ) (p : ℕ)
    (e : lookup sn l.user_locks ≡ some p) (w : Elsewhere xs ys h h' sn)
    (c : IsCounted l (xs ++ h ∷ ys)) (x : UserLock) where
  -- The lock of another name is another lock.
  kept_lock :
      (n : List ℕ) (q : ℕ)
      → bytes_eq n sn ≡ false
      → lookup n l.user_locks ≡ some q
      → update p x l.heap q ≡ l.heap q
  kept_lock n q f o = elim (Bool-cases (p == q)) [
    | inl t ↦
        let s : sn ≡ n =
          c.apart sn n p e (subst (λ z. lookup n l.user_locks ≡ some z) (sym (==→eq p q t)) o) in
        ground (arith, f, bytes_eq_refl n, ap (λ z. bytes_eq n z) s)
    | inr g ↦ update_other p q x l.heap g
  ]

  pub changed-IsCounted :
      x.ref_count ≡ refs sn (xs ++ h' ∷ ys)
      → 0 < refs sn (xs ++ h' ∷ ys)
      → holders sn (xs ++ h' ∷ ys) ≡ bit x.mutex
      → Points l.user_locks h'
      → IsCounted (record l { heap = update p x l.heap }) (xs ++ h' ∷ ys)
  changed-IsCounted r1 r2 r3 r4 = record {
    absent = λ n o. elim (Bool-cases (bytes_eq n sn)) [
      | inl t ↦
          let s : none ≡ some p =
            sym o ∙ ap (λ z. lookup z l.user_locks) (bytes_eq→eq n sn t) ∙ e in
          ground arith
      | inr f ↦ refs-elsewhere xs ys h h' sn w n f ∙ c.absent n o
    ];
    present = λ n q o. elim (Bool-cases (bytes_eq n sn)) [
      | inl t ↦
          let s : some q ≡ some p =
            sym o ∙ ap (λ z. lookup z l.user_locks) (bytes_eq→eq n sn t) ∙ e in
          let same : q ≡ p = ground (arith, s) in
          subst (λ z. Present (record l { heap = update p x l.heap }) (xs ++ h' ∷ ys) z q)
            (sym (bytes_eq→eq n sn t))
            (subst (Present (record l { heap = update p x l.heap }) (xs ++ h' ∷ ys) sn) (sym same) (
              ap (λ z. z.ref_count) (update_same p x l.heap) ∙ r1,
              r2,
              r3 ∙ sym (ap (λ z. bit z.mutex) (update_same p x l.heap)),
              (c.present sn p e).3,
            ))
      | inr f ↦
          Present-elsewhere xs ys h h' sn l (record l { heap = update p x l.heap }) n q w f
            (kept_lock n q f o) (omega arith) (c.present n q o)
    ];
    apart = c.apart;
    points =
        All-replace (Points l.user_locks) (Points l.user_locks) xs ys h h' (λ y z. z) r4 c.points;
  }

  -- Dropping the lock of a name that no goroutine has a reference to.
  module _ (none_left : refs sn (xs ++ h' ∷ ys) ≡ 0) where
    still :
        (n : List ℕ) (q : ℕ)
        → lookup n (delete_key sn l.user_locks) ≡ some q
        → bytes_eq n sn ≡ false × (lookup n l.user_locks ≡ some q)
    still n q o = elim (Bool-cases (bytes_eq n sn)) [
      | inl t ↦
          let s : none ≡ some q =
            sym (lookup-delete_key sn l.user_locks)
            ∙ ap (λ z. lookup z (delete_key sn l.user_locks)) (sym (bytes_eq→eq n sn t))
            ∙ o in
          ground arith
      | inr f ↦ (f, sym (lookup-delete_key_other sn n l.user_locks (differs n f)) ∙ o)
    ]
      where
        differs : (n : List ℕ) → bytes_eq n sn ≡ false → sn ≢ n
        differs n f s = ground (arith, f, bytes_eq_refl n, ap (λ z. bytes_eq n z) s)

    gone :
        (n : List ℕ)
        → bytes_eq n sn ≡ false
        → lookup n (delete_key sn l.user_locks) ≡ lookup n l.user_locks
    gone n f =
        lookup-delete_key_other sn n l.user_locks
          (λ s. ground (arith, f, bytes_eq_refl n, ap (λ z. bytes_eq n z) s))

    unreferenced : (k : List ℕ) → refs_of sn (wants k 0) ≡ 0 → bytes_eq k sn ≡ false
    unreferenced k z = elim (Bool-cases (bytes_eq k sn)) [
      | inl t ↦
          let s : bytes_eq sn k ≡ true =
            subst (λ y. bytes_eq sn y ≡ true) (sym (bytes_eq→eq k sn t)) (bytes_eq_refl sn) in
          ground (arith, s, z)
      | inr f ↦ f
    ]

    restricted_head :
        (y : Holder)
        → Points l.user_locks y
        → refs_of sn y ≡ 0
        → Points (delete_key sn l.user_locks) y
    restricted_head outside q r = tt
    restricted_head (wants k r) q z = gone k (unreferenced k z) ∙ q
    restricted_head (holds k r) q z = gone k (unreferenced k z) ∙ q

    restricted :
        (zs : List Holder)
        → All (Points l.user_locks) zs
        → refs sn zs ≡ 0
        → All (Points (delete_key sn l.user_locks)) zs
    restricted [] a r = tt
    restricted (z ∷ zs) (a, b) r =
        (restricted_head z a (omega (arith, r)), restricted zs b (omega (arith, r)))

    pub dropped-IsCounted :
        Points l.user_locks h'
        → IsCounted
            (record l { heap = update p x l.heap; user_locks = delete_key sn l.user_locks })
            (xs ++ h' ∷ ys)
    dropped-IsCounted r4 = record {
      absent = λ n o. elim (Bool-cases (bytes_eq n sn)) [
        | inl t ↦ ap (λ z. refs z (xs ++ h' ∷ ys)) (bytes_eq→eq n sn t) ∙ none_left
        | inr f ↦ refs-elsewhere xs ys h h' sn w n f ∙ c.absent n (sym (gone n f) ∙ o)
      ];
      present = λ n q o.
          let (f, o') = still n q o in
          Present-elsewhere xs ys h h' sn l
            (record l { heap = update p x l.heap; user_locks = delete_key sn l.user_locks }) n q w f
            (kept_lock n q f o') (omega arith) (c.present n q o');
      apart = λ n n' q o o'. c.apart n n' q (still n q o).1 (still n' q o').1;
      points =
          restricted (xs ++ h' ∷ ys)
            (All-replace (Points l.user_locks) (Points l.user_locks) xs ys h h' (λ y z. z) r4
              c.points)
            none_left;
    }
