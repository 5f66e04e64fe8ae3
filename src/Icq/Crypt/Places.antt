-- ===== src/Icq/Crypt/Places.antt =====
-- What EncryptV4Packet does to each byte of a packet.
use bencoscar.Prelude.{
  ℕ, zero, suc, ◌+◌, ◌-◌, ◌/◌, ◌%◌, ◌^◌, ◌<◌, ◌≡◌, refl, sym, ap, ◌∙◌, List, [], ◌∷◌, Option, none,
  some, Bool, true, false, ◌&&◌, ◌==◌, ltb, leb, length, get_elem?, if◌then◌else◌, inl, inr,
  Bool-cases, ==→eq, arith,
}
use Prim.Native.Nat.{bit_xor}
use bencoscar.Wire.Words.{little, w32, put_uint, put_little}
use bencoscar.Wire.Roast.{table_byte, xor_some}
use bencoscar.Icq.Crypt.{xor_at, encrypt_v4_loop, encrypt_v4_packet}
use bencoscar.Icq.Crypt.Table.{v5_table}

get-xor_at :
    (k j m : ℕ) (s : List ℕ)
    → get_elem? (xor_at k m s) j ≡ (if j == k then xor_some m (get_elem? s j) else get_elem? s j)
unfolding xor_at
get-xor_at k j m [] = same (j == k) none
  where
    same : (b : Bool) (o : Option ℕ) → o ≡ (if b then o else o)
    same true o = refl
    same false o = refl
get-xor_at zero zero m (b ∷ s) = refl
get-xor_at zero (suc j) m (b ∷ s) =
    let f : (suc j == 0) ≡ false = ground arith in
    ap (λ z. if z then xor_some m (get_elem? s j) else get_elem? s j) (sym f)
get-xor_at (suc k) zero m (b ∷ s) =
    let f : (0 == suc k) ≡ false = ground arith in
    ap (λ z. if z then xor_some m (some b) else some b) (sym f)
get-xor_at (suc k) (suc j) m (b ∷ s) =
    let e : (j == k) ≡ (suc j == suc k) = ground arith in
    get-xor_at k j m s ∙ ap (λ z. if z then xor_some m (get_elem? s j) else get_elem? s j) e

-- What the x-th of the hidden bytes is changed by: the table at the place that the low byte of x and
-- the byte of the key at x modulo 4, the lowest first, make by an exclusive or.
abbrev pub v4_mask : ℕ → ℕ → ℕ
v4_mask key x = table_byte v5_table (bit_xor (x % 256) (key / 256 ^ (x % 4) % 256))

v4_key_byte : (key r : ℕ) → r < 4 → table_byte (put_uint little w32 key) r ≡ key / 256 ^ r % 256
unfolding table_byte put_uint put_little
v4_key_byte key zero h = omega arith
v4_key_byte key (suc zero) h = omega arith
v4_key_byte key (suc (suc zero)) h = omega arith
v4_key_byte key (suc (suc (suc zero))) h = omega arith
v4_key_byte key (suc (suc (suc (suc r)))) h = absurd (omega arith)

abbrev in_span : ℕ → ℕ → ℕ → Bool
in_span i n j = leb (4 + i) j && ltb j (4 + i + n)

module _ (key j : ℕ) where
  abbrev hidden : ℕ → ℕ → List ℕ → Option ℕ
  hidden i n s =
      if in_span i n j then xor_some (v4_mask key (j - 4)) (get_elem? s j) else get_elem? s j

  encrypt_v4_loop-at :
      (n i : ℕ) (s : List ℕ)
      → get_elem? (encrypt_v4_loop n i (put_uint little w32 key) s) j ≡ hidden i n s
  unfolding encrypt_v4_loop
  encrypt_v4_loop-at zero i s = let f : in_span i zero j ≡ false = ground arith in rw f refl
  encrypt_v4_loop-at (suc n) i s =
      let m =
        table_byte v5_table (bit_xor (i % 256) (table_byte (put_uint little w32 key) (i % 4))) in
      let same : m ≡ v4_mask key i =
        ap (λ z. table_byte v5_table (bit_xor (i % 256) z))
          (v4_key_byte key (i % 4) (omega arith)) in
      encrypt_v4_loop-at n (i + 1) (xor_at (4 + i) m s)
      ∙ ap (λ z. if in_span (i + 1) n j then xor_some (v4_mask key (j - 4)) z else z)
          (get-xor_at (4 + i) j m s)
      ∙ elim (Bool-cases (j == 4 + i)) [
        | inl t ↦
            let f : in_span (i + 1) n j ≡ false = outside i n t in
            let g : in_span i (suc n) j ≡ true = inside i n t in
            let x : i ≡ j - 4 = omega (arith, ==→eq j (4 + i) t) in
            choose m (in_span (i + 1) n j) (in_span i (suc n) j) (j == 4 + i) t f g
              (same ∙ ap (v4_mask key) x)
        | inr f ↦ pass m (in_span (i + 1) n j) (in_span i (suc n) j) (j == 4 + i) f (shifted i n f)
      ]
    where
      M : ℕ
      M = v4_mask key (j - 4)

      outside : (i n : ℕ) → (j == 4 + i) ≡ true → in_span (i + 1) n j ≡ false
      outside i n t = ground (arith, t)

      inside : (i n : ℕ) → (j == 4 + i) ≡ true → in_span i (suc n) j ≡ true
      inside i n t = ground (arith, t)

      shifted : (i n : ℕ) → (j == 4 + i) ≡ false → in_span (i + 1) n j ≡ in_span i (suc n) j
      shifted i n f = ground (arith, f)

      after : ℕ → Bool → Bool → Option ℕ → Option ℕ
      after m here b o = let z = if b then xor_some m o else o in if here then xor_some M z else z

      choose :
          (m : ℕ) (p q b : Bool)
          → b ≡ true
          → p ≡ false
          → q ≡ true
          → m ≡ M
          → after m p b (get_elem? s j) ≡ (if q then xor_some M (get_elem? s j) else get_elem? s j)
      choose m p q b t f g e =
          (λ k. after (e k) (f k) (t k) (get_elem? s j))
          ∙ ap (λ q. if q then xor_some M (get_elem? s j) else get_elem? s j) (sym g)

      pass :
          (m : ℕ) (p q b : Bool)
          → b ≡ false
          → p ≡ q
          → after m p b (get_elem? s j) ≡ (if q then xor_some M (get_elem? s j) else get_elem? s j)
      pass m p q b f e = λ k. after m (e k) (f k) (get_elem? s j)

-- The bytes that EncryptV4Packet hides: a quarter of those that follow the first four.
abbrev pub is_hidden : ℕ → ℕ → Bool
is_hidden n j = leb 4 j && ltb j (4 + (n - 4) / 4)

pub encrypt_v4_packet-at :
    (key j : ℕ) (s : List ℕ)
    → get_elem? (encrypt_v4_packet s key) j ≡ (
        if is_hidden (length s) j
        then xor_some (v4_mask key (j - 4)) (get_elem? s j)
        else get_elem? s j)
unfolding encrypt_v4_packet
encrypt_v4_packet-at key j s = elim (Bool-cases (ltb (length s) 8)) [
  | inl t ↦ let f : is_hidden (length s) j ≡ false = none_hidden (length s) t in rw (t, f) refl
  | inr f ↦
      let q : ltb ((length s - 4) / 4) 1 ≡ false = some_hidden (length s) f in
      rw (f, q) (encrypt_v4_loop-at key j ((length s - 4) / 4) 0 s)
]
  where
    none_hidden : (n : ℕ) → ltb n 8 ≡ true → is_hidden n j ≡ false
    none_hidden n t = ground (arith, t)

    some_hidden : (n : ℕ) → ltb n 8 ≡ false → ltb ((n - 4) / 4) 1 ≡ false
    some_hidden n f = ground (arith, f)
