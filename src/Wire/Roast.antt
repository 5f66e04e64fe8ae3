-- ===== src/Wire/Roast.antt =====
-- wire/user.go: the passwords of the clients, which are told or hidden by an exclusive or.
use Prim.Native.Nat.{bit_xor}
use bencoscar.Prelude.{
  ℕ, zero, suc, ◌+◌, ◌-◌, ◌/◌, ◌%◌, ◌^◌, ◌<◌, ◌≡◌, refl, sym, ap, ◌∙◌, subst, List, [], ◌∷◌, Option,
  none, some, length, get_elem?, codes, Bool, true, false, ◌==◌, if◌then◌else◌, Bool-cases, inl,
  inr, ==→eq, arith,
}
use bencoscar.Prelude.Bits.{bit_xor_twice}

-- The byte of a table at an index; the program looks up no other.
unfoldable pub table_byte : List ℕ → ℕ → ℕ
table_byte table i = elim (get_elem? table i) [ none ↦ 0 | some b ↦ b ]

-- roastPass, from an index on. The tables are not empty.
unfoldable pub roast_from : ℕ → List ℕ → List ℕ → List ℕ
unfolding table_byte
roast_from i [] roast_table = []
roast_from i (b ∷ s) roast_table =
    bit_xor b (table_byte roast_table (i % length roast_table)) ∷ roast_from (i + 1) s roast_table

unfoldable pub roast_pass : List ℕ → List ℕ → List ℕ
unfolding roast_from
roast_pass = roast_from 0

unfoldable pub roast_oscar_password : List ℕ → List ℕ
unfolding roast_pass
roast_oscar_password s = roast_pass s (
    0xf3 ∷ 0x26 ∷ 0x81 ∷ 0xc4 ∷ 0x39 ∷ 0x86 ∷ 0xdb ∷ 0x92 ∷ 0x71 ∷ 0xa3 ∷ 0xb9 ∷ 0xe6 ∷ 0x53 ∷ 0x7a
    ∷ 0x95 ∷ 0x7c ∷ [])

unfoldable pub roast_kerberos_password : List ℕ → List ℕ
unfolding roast_pass
roast_kerberos_password s = roast_pass s (
    0x76 ∷ 0x91 ∷ 0xc5 ∷ 0xe7 ∷ 0xd0 ∷ 0xd9 ∷ 0x95 ∷ 0xdd ∷ 0x9e ∷ 0x2f ∷ 0xea ∷ 0xd8 ∷ 0x6b ∷ 0x21
    ∷ 0xc2 ∷ 0xbc ∷ [])

unfoldable pub roast_oscar_java_password : List ℕ → List ℕ
unfolding roast_pass
roast_oscar_java_password s = roast_pass s (
    0xf3 ∷ 0xb3 ∷ 0x6c ∷ 0x99 ∷ 0x95 ∷ 0x3f ∷ 0xac ∷ 0xb6 ∷ 0xc5 ∷ 0xfa ∷ 0x6b ∷ 0x63 ∷ 0x69 ∷ 0x6c
    ∷ 0xc3 ∷ 0x9a ∷ [])

unfoldable pub roast_toc_password : List ℕ → List ℕ
unfolding roast_pass
roast_toc_password s = roast_pass s (codes "Tic/Toc")

pub roast_from-twice : (i : ℕ) (s table : List ℕ) → roast_from i (roast_from i s table) table ≡ s
unfolding roast_from
roast_from-twice i [] table = refl
roast_from-twice i (b ∷ s) table =
    ap (λ z. z ∷ roast_from (i + 1) (roast_from (i + 1) s table) table)
      (bit_xor_twice b (table_byte table (i % length table)))
    ∙ ap (λ z. b ∷ z) (roast_from-twice (i + 1) s table)

-- A byte, if there is one, with another one put in by an exclusive or.
abbrev pub xor_some : ℕ → Option ℕ → Option ℕ
xor_some m none = none
xor_some m (some b) = some (bit_xor b m)

roast_from-at :
    (i j : ℕ) (s table : List ℕ)
    → get_elem? (roast_from i s table) j
      ≡ xor_some (table_byte table ((i + j) % length table)) (get_elem? s j)
unfolding roast_from
roast_from-at i j [] table = refl
roast_from-at i zero (b ∷ s) table =
    ap (λ z. some (bit_xor b (table_byte table (z % length table)))) (omega arith)
roast_from-at i (suc j) (b ∷ s) table =
    roast_from-at (i + 1) j s table
    ∙ ap (λ z. xor_some (table_byte table (z % length table)) (get_elem? s j)) (omega arith)

-- The `r`-th of the `n` bytes of a number, the highest first.
abbrev pub key_byte : ℕ → ℕ → ℕ → ℕ
key_byte key n r = key / 256 ^ (n - 1 - r) % 256

-- The table holds the bytes of the number.
abbrev holds_key : List ℕ → ℕ → ℕ → ℕ → Bool
holds_key table key n zero = true
holds_key table key n (suc r) =
    let rest = holds_key table key n r in
    if table_byte table r == key_byte key n r then rest else false

holds_key-at :
    (table : List ℕ) (key n m r : ℕ)
    → holds_key table key n m ≡ true
    → r < m
    → table_byte table r ≡ key_byte key n r
holds_key-at table key n zero r h l = absurd (omega arith)
holds_key-at table key n (suc m) r h l =
    elim (Bool-cases (table_byte table m == key_byte key n m)) [
      | inr f ↦ let k : false ≡ true = rw f at h in absurd (ground (arith, k))
      | inl t ↦
          let k : holds_key table key n m ≡ true = rw t at h in
          elim (Bool-cases (r == m)) [
            | inl e ↦
                subst (λ z. table_byte table z ≡ key_byte key n z) (sym (==→eq r m e))
                  (==→eq (table_byte table m) (key_byte key n m) t)
            | inr g ↦ holds_key-at table key n m r k (ground (arith, l, g))
          ]
    ]

-- The passwords of one client, with the table as a number of `n` bytes.
abbrev pub Hides : (List ℕ → List ℕ) → ℕ → ℕ → List ℕ → ℕ → Type 0
Hides roast key n s j =
    (get_elem? (roast s) j ≡ xor_some (key_byte key n (j % n)) (get_elem? s j))
    × (length (roast s) ≡ length s)
    × (roast (roast s) ≡ s)

length-roast_from : (i : ℕ) (s table : List ℕ) → length (roast_from i s table) ≡ length s
unfolding roast_from
length-roast_from i [] table = refl
length-roast_from i (b ∷ s) table = ap suc (length-roast_from (i + 1) s table)

roast_pass-Hides :
    (table : List ℕ) (key n : ℕ) (s : List ℕ) (j : ℕ)
    → length table ≡ n
    → holds_key table key n n ≡ true
    → j % n < n
    → Hides (λ s. roast_pass s table) key n s j
unfolding roast_pass
roast_pass-Hides table key n s j len holds l = (
  roast_from-at 0 j s table
      ∙ ap (λ z. xor_some (table_byte table (z % length table)) (get_elem? s j)) (omega arith)
      ∙ ap (λ z. xor_some (table_byte table (j % z)) (get_elem? s j)) len
      ∙ ap (λ z. xor_some z (get_elem? s j)) (holds_key-at table key n n (j % n) holds l),
  length-roast_from 0 s table,
  roast_from-twice 0 s table,
)

-- Each of the four functions that hide a client's password puts the bytes of its table, over and over,
-- into the bytes of the password by an exclusive or; it keeps the length, and also finds the password
-- out again. The tables are 0xf326...7c, 0x7691...bc and 0xf3b3...9a of 16 bytes, and "Tic/Toc".
pub roast-twice :
    (s : List ℕ) (j : ℕ)
    → Hides roast_oscar_password 0xf32681c43986db9271a3b9e6537a957c 16 s j
      × Hides roast_kerberos_password 0x7691c5e7d0d995dd9e2fead86b21c2bc 16 s j
      × Hides roast_oscar_java_password 0xf3b36c99953facb6c5fa6b63696cc39a 16 s j
      × Hides roast_toc_password 0x5469632f546f63 7 s j
unfolding roast_oscar_password roast_kerberos_password roast_oscar_java_password roast_toc_password
    table_byte
roast-twice s j = (
  roast_pass-Hides _ _ 16 s j refl refl (omega arith),
  roast_pass-Hides _ _ 16 s j refl refl (omega arith),
  roast_pass-Hides _ _ 16 s j refl refl (omega arith),
  roast_pass-Hides _ _ 7 s j refl refl (omega arith),
)
