-- ===== src/Wire/RoundTrip/Kinds.antt =====
-- The rules of Codes for each kind of type.
use mathlib.Core.Bool.{false≢true}
use bencoscar.Prelude.{
  ℕ, suc, ◌+◌, ◌<◌, ◌≡◌, refl, ap, inl, inr, List, [], ◌++◌, Bool, true, false, ◌||◌, length,
  length-append, append_assoc, append-nil, All, arith, Option, some, none, if◌then◌else◌,
}
use bencoscar.Wire.Reader.{Result, ok, got, fail, Reader, pure, lift, ◌>>=◌, ◌>>=ᵉ◌, eof}
use bencoscar.Wire.Words.{Order, Width, modulus, size}
use bencoscar.Wire.Tag.{OscarTag}
use bencoscar.Wire.Encode.{
  ◌then_write◌, write_each, marshal_slice, marshal_struct, marshal_string, required, add_null,
}
use bencoscar.Wire.Decode.{
  read_until_empty, unmarshal_slice, unmarshal_struct, unmarshal_string, demand,
}
use bencoscar.Wire.RoundTrip.Rules.{
  Codes, Codes-each, Each, each_bytes, Each-writes, Each-sized, Each-until_eof, Each-until_empty,
  sum_map,
}
use bencoscar.Wire.RoundTrip.Prefixes.{Codes-buffer, Codes-int, Codes-block, is_small}
use bencoscar.Wire.RoundTrip.Shape.{
  SliceFits, PrefixFits, HasPrefix, NullFits, is_some_width, either_width, opt_size, with_null,
}
use bencoscar.Wire.RoundTrip.Strings.{length-add_null, until_null-add_null}

module _ {A : Type 0} where
  -- marshalSlice and unmarshalSlice, given their elements.
  pub Codes-slice :
      (f : A → Result (List ℕ)) (m : Reader A) (s : A → ℕ) (o : Order) (l c : Option Width)
      (xs : List A) {P : Type 0}
      → Each f m s xs
      → (P → All (λ x. 0 < s x) xs)
      → (P → m [] ≡ fail eof [])
      → SliceFits l c (sum_map s xs) (length xs) P
      → Codes
          (marshal_slice l c o (length xs) (write_each f xs))
          (unmarshal_slice l c o m)
          (is_some_width (either_width l c))
          xs
          (opt_size (either_width l c) + sum_map s xs)
  unfolding marshal_slice unmarshal_slice
  Codes-slice f m s o (some w) c xs h pos e (small, lt, p) =
      Codes-buffer w o small (λ b. read_until_empty (length b) m) (each_bytes f m s xs h)
        (Each-writes f m s xs h) (Each-sized f m s xs h)
        (Each-until_empty f m s xs h _ (pos p) (omega arith)) lt
  Codes-slice f m s o none (some w) xs h pos e (small, lt) =
      let int = Codes-int w (length xs) o small lt in
      let each = Codes-each f m s xs h in
      record {
        bytes = int.bytes ++ each.bytes;
        writes = rw (each.writes, int.writes);
        sized = omega (arith, length-append int.bytes each.bytes, int.sized, each.sized);
        reads = λ r _.
            rw (append_assoc int.bytes each.bytes r)
              (rw (int.reads (each.bytes ++ r) (inl refl)) (each.reads r (inl refl)));
      }
  Codes-slice f m s o none none xs h pos e p = record {
    bytes = each_bytes f m s xs h;
    writes = Each-writes f m s xs h;
    sized = omega (arith, Each-sized f m s xs h);
    reads = λ r d. elim d [
      | inl q ↦ absurd (false≢true q)
      | inr q ↦
          rw (q, append-nil)
            (Each-until_eof f m s xs h (suc (length (each_bytes f m s xs h))) (pos p) (e p)
              (omega arith))
    ];
  }

  -- marshalStruct and unmarshalStruct, given their fields.
  pub Codes-struct :
      {write : Result (List ℕ)} {read : Reader A} {c : Bool} {a : A} {n : ℕ} (o : Order)
      (l : Option Width)
      → Codes write read c a n
      → PrefixFits l n
      → Codes
          (marshal_struct l o write)
          (unmarshal_struct l o read)
          (is_some_width l || c)
          a
          (opt_size l + n)
  unfolding marshal_struct unmarshal_struct
  Codes-struct {read = read} o (some w) h (small, lt) =
      Codes-buffer w o small (λ _. read) h.bytes h.writes h.sized
        (rw append-nil at (h.reads [] (inr refl))) lt
  Codes-struct o none h fits = record {
    bytes = h.bytes;
    writes = h.writes;
    sized = omega (arith, h.sized);
    reads = h.reads;
  }

  -- The tests on `optional` do nothing where the tag does not say it.
  pub Codes-required :
      {write : Result (List ℕ)} {read : Reader A} {c : Bool} {a : A} {n : ℕ} (tag : OscarTag)
      → tag.optional ≡ false
      → Codes write read c a n
      → Codes (required tag write) (demand tag read) c a n
  unfolding required demand
  Codes-required tag e h = rw e h

  -- The last field of a struct.
  pub Codes-last :
      {w : Result (List ℕ)} {m : Reader A} {a : A} {n : ℕ} {c : Bool}
      → Codes w m c a n
      → Codes (w then_write ok []) (m >>= (λ x. pure {A = A × Unit {0}} (x, tt))) c (a, tt) (n + 0)
  Codes-last h = record {
    bytes = h.bytes;
    writes = rw h.writes (ap ok (append-nil h.bytes));
    sized = omega (arith, h.sized);
    reads = λ r d. rw (h.reads r d);
  }

-- marshalString and unmarshalString.
Codes-string_prefixed :
    (w : Width) (n : Bool) (s : List ℕ) (o : Order)
    → is_small w ≡ true
    → with_null n s < modulus w
    → NullFits n s
    → Codes
        (marshal_string (some w) n s o)
        (unmarshal_string (some w) n o)
        true
        s
        (size w + with_null n s)
unfolding marshal_string unmarshal_string
Codes-string_prefixed w n s o small lt h =
    let block = Codes-block w o small (add_null n s) (rw length-add_null lt) in
    record {
      bytes = block.bytes;
      writes = block.writes;
      sized = rw (← length-add_null n s) block.sized;
      reads = λ r _. rw (block.reads r (inl refl)) (ap (λ t. got t r) (until_null-add_null n s h));
    }

pub Codes-string :
    (l : Option Width) (n : Bool) (s : List ℕ) (o : Order)
    → HasPrefix l (with_null n s)
    → NullFits n s
    → Codes (marshal_string l n s o) (unmarshal_string l n o) true s (opt_size l + with_null n s)
Codes-string none n s o p h = absurd p
Codes-string (some w) n s o p h = Codes-string_prefixed w n s o p.0 p.1 h

pub Codes-if :
    {A : Type 0} {w : Result (List ℕ)} {m : Reader A} {c : Bool} {a : A} {n : ℕ}
    (v : Result (List ℕ)) (k : Reader A) (b : Bool)
    → b ≡ true
    → Codes w m c a n
    → Codes (if b then w else v) (if b then m else k) c a n
Codes-if v k true e h = h
Codes-if v k false e h = cc

-- One field of a struct: its checks, its tag, its value, and what comes behind it.
module _ {A B : Type 0} (check check' : Result (Unit {0})) (parsed : Result OscarTag)
    (f : OscarTag → Result (List ℕ)) (m : OscarTag → Reader A) (v : Result (List ℕ)) (k : Reader B)
    {tag : OscarTag} {p : A × B} {n : ℕ} {d : Bool} where
  pub Codes-field :
      check ≡ ok tt
      → check' ≡ ok tt
      → parsed ≡ ok tag
      → Codes (f tag then_write v) (m tag >>= (λ x. k >>= (λ y. pure {A = A × B} (x, y)))) d p n
      → Codes
          ((check >>=ᵉ (λ _. parsed >>=ᵉ f)) then_write v)
          (lift check' >>= (λ _.
            lift parsed >>= (λ osc. m osc >>= (λ x. k >>= (λ y. pure {A = A × B} (x, y))))))
          d
          p
          n
  Codes-field passes passes' parses h = rw (passes, passes', parses) h
