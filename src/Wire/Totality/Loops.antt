-- ===== src/Wire/Totality/Loops.antt =====
-- The three loops over the elements of a slice.
use bencoscar.Prelude.{
  ℕ, zero, suc, ◌≤◌, ◌<◌, List, [], ◌∷◌, Bool, length, arith, if◌then◌else◌, Bool-cases, inl, inr,
  Option, some, none,
}
use bencoscar.Wire.Reader.{Read, got, fail, Reader, pure, missing_len_prefix, ◌>>=◌, within}
use bencoscar.Wire.Words.{Order, Width}
use bencoscar.Wire.Decode.{
  cons_read, is_eof, read_times, read_until_empty, read_until_eof, unmarshal_slice,
  unmarshal_struct, unmarshal_string, until_null, read_block, unmarshal_unsigned_int,
}
use bencoscar.Wire.RoundTrip.Shape.{either_width, HasSmall, SmallOr}
use bencoscar.Wire.Totality.Progress.{
  Steps, Safe, Steps-trans, Safe-bind, Safe-weaken, Safe-pure, Safe-throw, Safe-within, Safe-int,
  Safe-block,
}

module _ {A : Type 0} where
  Steps-cons : (a : A) (x : Read (List A)) (k n : ℕ) → Steps k n x → Steps k n (cons_read a x)
  Steps-cons a (got xs r) k n s = s
  Steps-cons a (fail e r) k n s = s

  module _ (m : Reader A) where
    times_case :
        (n i j : ℕ) (x : Read A)
        → Steps i j x
        → Safe 0 (read_times n m)
        → Steps i j (elim x [ got a r' ↦ cons_read a (read_times n m r') | fail e r' ↦ fail e r' ])
    times_case n i j (got a r) s h =
        Steps-cons a (read_times n m r) i j (Steps-trans (read_times n m r) i (length r) j (h r) s)
    times_case n i j (fail e r) s h = s

    pub Safe-times : (n : ℕ) → Safe 0 m → Safe 0 (read_times n m)
    unfolding read_times
    Safe-times zero h r = omega arith
    Safe-times (suc n) h r = times_case n 0 (length r) (m r) (h r) (Safe-times n h)

    pub Safe-times_suc : (n k : ℕ) → Safe 0 m → Safe k m → Safe k (read_times (suc n) m)
    unfolding read_times
    Safe-times_suc n k h g r = times_case n k (length r) (m r) (g r) (Safe-times n h)

    empty_case :
        (fuel j : ℕ) (x : Read A)
        → Steps 1 j x
        → j ≤ suc fuel
        → ((r : List ℕ) → length r ≤ fuel → Steps 0 (length r) (read_until_empty fuel m r))
        → Steps 0 j
            (elim x [ got a r' ↦ cons_read a (read_until_empty fuel m r') | fail e r' ↦ fail e r' ])
    empty_case fuel j (got a r) s l h =
        let x = read_until_empty fuel m r in
        Steps-cons a x 0 j (Steps-trans x 0 (length r) j (h r (omega arith)) (omega arith))
    empty_case fuel j (fail e r) s l h = s

    -- With elements that take a byte at least, the buffer empties within the fuel.
    until_empty-Steps :
        (fuel : ℕ)
        → Safe 1 m
        → (r : List ℕ) → length r ≤ fuel
        → Steps 0 (length r) (read_until_empty fuel m r)
    unfolding read_until_empty
    until_empty-Steps zero h [] l = omega arith
    until_empty-Steps zero h (b ∷ r) l = absurd (omega arith)
    until_empty-Steps (suc fuel) h [] l = omega arith
    until_empty-Steps (suc fuel) h (b ∷ r) l =
        empty_case fuel (suc (length r)) (m (b ∷ r)) (h (b ∷ r)) l (until_empty-Steps fuel h)

    eof_case :
        (fuel j : ℕ) (x : Read A)
        → Steps 1 j x
        → j < suc fuel
        → ((r : List ℕ) → length r < fuel → Steps 0 (length r) (read_until_eof fuel m r))
        → Steps 0 j (elim x [
          | got a r' ↦ cons_read a (read_until_eof fuel m r')
          | fail e r' ↦ if is_eof e then got [] r' else fail e r'
        ])
    eof_case fuel j (got a r) s l h =
        let x = read_until_eof fuel m r in
        Steps-cons a x 0 j (Steps-trans x 0 (length r) j (h r (omega arith)) (omega arith))
    eof_case fuel j (fail e r) s l h = elim (Bool-cases (is_eof e)) [
      | inl p ↦ rw p (omega arith)
      | inr p ↦ rw p s
    ]

    until_eof-Steps :
        (fuel : ℕ)
        → Safe 1 m
        → (r : List ℕ) → length r < fuel
        → Steps 0 (length r) (read_until_eof fuel m r)
    unfolding read_until_eof
    until_eof-Steps zero h r l = absurd (omega arith)
    until_eof-Steps (suc fuel) h r l =
        eof_case fuel (length r) (m r) (h r) l (until_eof-Steps fuel h)

    block_slice :
        (w : Width) (o : Order)
        → Safe 1 m
        → Safe 1 (read_block w o >>= (λ b. within b (read_until_empty (length b) m)))
    block_slice w o h =
        Safe-bind (read_block w o) (λ b. within b (read_until_empty (length b) m)) 1 0
          (Safe-block w o)
          (λ b.
            Safe-within b (read_until_empty (length b) m)
              (until_empty-Steps (length b) h b (omega arith)))

    counted_slice :
        (w : Width) (o : Order)
        → Safe 1 m
        → Safe 1 (unmarshal_unsigned_int w o >>= (λ n. read_times n m))
    counted_slice w o h =
        Safe-bind (unmarshal_unsigned_int w o) (λ n. read_times n m) 1 0 (Safe-int w o)
          (λ n. Safe-times n (Safe-weaken m 1 h))

    pub Safe-slice : (l c : Option Width) (o : Order) → Safe 1 m → Safe 0 (unmarshal_slice l c o m)
    unfolding unmarshal_slice
    Safe-slice (some w) c o h r = Safe-weaken _ 1 (block_slice w o h) r
    Safe-slice none (some w) o h r = Safe-weaken _ 1 (counted_slice w o h) r
    Safe-slice none none o h r = until_eof-Steps (suc (length r)) h r (omega arith)

    -- A slice with a prefix takes the prefix at least.
    pub Safe-slice_prefixed :
        (l c : Option Width) (o : Order)
        → HasSmall (either_width l c)
        → Safe 1 m
        → Safe 1 (unmarshal_slice l c o m)
    unfolding unmarshal_slice
    Safe-slice_prefixed (some w) c o s h = block_slice w o h
    Safe-slice_prefixed none (some w) o s h = counted_slice w o h
    Safe-slice_prefixed none none o s h = absurd s

    pub Safe-struct : (l : Option Width) (o : Order) → Safe 0 m → Safe 0 (unmarshal_struct l o m)
    unfolding unmarshal_struct
    Safe-struct (some w) o h = Safe-weaken _ 1 (
        Safe-bind (read_block w o) (λ b. within b m) 1 0 (Safe-block w o)
          (λ b. Safe-within b m (h b)))
    Safe-struct none o h = h

    pub Safe-struct_hungry :
        (l : Option Width) (o : Order) {P : Type 0}
        → Safe 0 m
        → (P → Safe 1 m)
        → SmallOr l P
        → Safe 1 (unmarshal_struct l o m)
    unfolding unmarshal_struct
    Safe-struct_hungry (some w) o h g s =
        Safe-bind (read_block w o) (λ b. within b m) 1 0 (Safe-block w o)
          (λ b. Safe-within b m (h b))
    Safe-struct_hungry none o h g s = g s

pub Safe-string : (l : Option Width) (n : Bool) (o : Order) → Safe 1 (unmarshal_string l n o)
unfolding unmarshal_string
Safe-string none n o = Safe-throw (List ℕ) missing_len_prefix 1 (λ p. cc)
Safe-string (some w) n o =
    Safe-bind (read_block w o) (λ buf. pure (if n then until_null buf else buf)) 1 0
      (Safe-block w o) (λ b. Safe-pure (if n then until_null b else b))
