-- ===== src/State/Feedbag/Ids.antt =====
-- genID finds a new ID, if any of the numbers that it tries is free.
use bencoscar.Prelude.{
  ℕ, zero, suc, ◌+◌, ◌-◌, ◌%◌, ◌<◌, ◌≡◌, ◌≢◌, refl, sym, subst, List, Bool, true, false, ◌||◌, ◌==◌,
  ◌⊎◌, inl, inr, arith, Bool-cases,
}
use bencoscar.State.Feedbag.{FeedbagItem, FeedbagList, id_used, gen_id_from, gen_id}

-- No item has the number, for an ID of its own or of a group.
abbrev pub Free : ℕ → FeedbagList → Type 0
Free id f = (0 < id) × (id < 0x1_0000) × (id_used id f.heap f.items ≡ false)

abbrev taken : ℕ → (ℕ → FeedbagItem) → List ℕ → Bool
taken id heap items = (id == 0) || id_used id heap items

gen_id_from-free :
    (rounds id num n : ℕ) (heap : ℕ → FeedbagItem) (items : List ℕ)
    → id < 0x1_0000
    → gen_id_from rounds id num heap items ≡ n
    → n ≢ 0
    → (n < 0x1_0000) × (id_used n heap items ≡ false)
unfolding gen_id_from
gen_id_from-free zero id num n heap items b e h = absurd (h (sym e))
gen_id_from-free (suc rounds) id num n heap items b e h =
    elim (Bool-cases (id == (num + 0xffff) % 0x1_0000)) [
      | inl t ↦ absurd (h (sym (rw t at e)))
      | inr f ↦ elim (Bool-cases (taken id heap items)) [
        | inl t ↦
            gen_id_from-free rounds ((id + 1) % 0x1_0000) num n heap items (omega arith)
              (rw (f, t) at e) h
        | inr g ↦
            let q : id ≡ n = rw (f, g) at e in
            (
              subst (λ z. z < 0x1_0000) q b,
              subst (λ z. id_used z heap items ≡ false) q (ground (arith, g)),
            )
      ]
    ]

-- If nothing is found before the number at which the search stops, all the numbers up to it are taken.
gen_id_from-taken :
    (rounds id num d : ℕ) (heap : ℕ → FeedbagItem) (items : List ℕ)
    → id < 0x1_0000
    → d < rounds
    → d < 0x1_0000
    → (id + d) % 0x1_0000 ≡ (num + 0xffff) % 0x1_0000
    → gen_id_from rounds id num heap items ≡ 0
    → (j : ℕ) → j < d
    → taken ((id + j) % 0x1_0000) heap items ≡ true
unfolding gen_id_from
gen_id_from-taken zero id num d heap items b l m s e j k = absurd (omega arith)
gen_id_from-taken (suc rounds) id num zero heap items b l m s e j k = absurd (omega arith)
gen_id_from-taken (suc rounds) id num (suc d) heap items b l m s e j k =
    elim (Bool-cases (taken id heap items)) [
      | inl t ↦
          tried t
            (λ i l'.
              gen_id_from-taken rounds ((id + 1) % 0x1_0000) num d heap items (omega arith)
                (omega (arith, l)) (omega (arith, m)) (omega (arith, s)) (rw (going, t) at e) i l')
            j k
      | inr g ↦
          let q : id ≡ 0 = rw (going, g) at e in
          let z : (id == 0) ≡ true = ground (arith, q) in ground (arith, g, z)
    ]
  where
    going : (id == (num + 0xffff) % 0x1_0000) ≡ false
    going = let ne : id ≢ (num + 0xffff) % 0x1_0000 = omega (arith, s, m, b) in ground (arith, ne)

    tried :
        taken id heap items ≡ true
        → ((i : ℕ) → i < d → taken (((id + 1) % 0x1_0000 + i) % 0x1_0000) heap items ≡ true)
        → (j : ℕ) → j < suc d
        → taken ((id + j) % 0x1_0000) heap items ≡ true
    tried t h zero k = subst (λ z. taken z heap items ≡ true) (omega (arith, b)) t
    tried t h (suc j) k =
        subst (λ z. taken z heap items ≡ true) (omega arith) (h j (omega (arith, k)))

-- How far a number is from the random one.
abbrev distance : ℕ → ℕ → ℕ
distance r k = (k + 0x1_0000 - r % 0x1_0000) % 0x1_0000

distance_below : (r k : ℕ) → k < 0x1_0000 → k ≢ (r + 0xffff) % 0x1_0000 → distance r k < 0xffff
distance_below r k l ne = omega (arith, l, ne)

distance_back : (r k : ℕ) → k < 0x1_0000 → (r % 0x1_0000 + distance r k) % 0x1_0000 ≡ k
distance_back r k l = omega (arith, l)

tried_all :
    (r : ℕ) (heap : ℕ → FeedbagItem) (items : List ℕ)
    → gen_id_from 0x1_0000 (r % 0x1_0000) (r % 0x1_0000) heap items ≡ 0
    → (j : ℕ) → j < 0xffff
    → taken ((r % 0x1_0000 + j) % 0x1_0000) heap items ≡ true
tried_all r heap items =
    gen_id_from-taken 0x1_0000 (r % 0x1_0000) (r % 0x1_0000) 0xffff heap items (omega arith)
      (omega arith) (omega arith) refl

used_if :
    (k : ℕ) (heap : ℕ → FeedbagItem) (items : List ℕ)
    → 0 < k
    → taken k heap items ≡ true
    → id_used k heap items ≡ true
used_if k heap items p h = let z : (k == 0) ≡ false = ground (arith, p) in rw z at h

found_free :
    (r n : ℕ) (heap : ℕ → FeedbagItem) (items : List ℕ)
    → gen_id_from 0x1_0000 (r % 0x1_0000) (r % 0x1_0000) heap items ≡ n
    → n ≢ 0
    → (n < 0x1_0000) × (id_used n heap items ≡ false)
found_free r n heap items =
    gen_id_from-free 0x1_0000 (r % 0x1_0000) (r % 0x1_0000) n heap items (omega arith)

-- What genID returns: an ID that is free, or 0 if all numbers are taken but 0 and, perhaps, the one
-- below the random number, which is not tried.
abbrev pub IdFor : ℕ → FeedbagList → ℕ → Type 0
IdFor random f n =
    Free n f
    ⊎ ((n ≡ 0)
        × ((k : ℕ)
            → 0 < k
            → k < 0x1_0000
            → k ≢ (random + 0xffff) % 0x1_0000
            → id_used k f.heap f.items ≡ true))

started :
    (random : ℕ) (f : FeedbagList)
    → gen_id_from 0x1_0000 (random % 0x1_0000) (random % 0x1_0000) f.heap f.items ≡ gen_id random f
unfolding gen_id
started random f = refl

suc_ne : (n : ℕ) → suc n ≢ 0
suc_ne n = omega arith

suc_pos : (n : ℕ) → 0 < suc n
suc_pos n = omega arith

-- The ID that genID returns is not 0, fits in 16 bits, and belongs to no item and no group of the list;
-- or it is 0, and then every number from 1 to 65535 is taken, but for the one below the random number.
pub gen_id-IdFor : (random : ℕ) (f : FeedbagList) → IdFor random f (gen_id random f)
gen_id-IdFor random f = found (gen_id random f) (started random f)
  where
    found :
        (n : ℕ)
        → gen_id_from 0x1_0000 (random % 0x1_0000) (random % 0x1_0000) f.heap f.items ≡ n
        → IdFor random f n
    found zero e = inr (
      refl,
      λ k p l ne. used_if k f.heap f.items p (
          subst (λ z. taken z f.heap f.items ≡ true) (distance_back random k l)
            (tried_all random f.heap f.items e (distance random k) (distance_below random k l ne))),
    )
    found (suc n) e =
        let (a, b) = found_free random (suc n) f.heap f.items e (suc_ne n) in inl (suc_pos n, a, b)
