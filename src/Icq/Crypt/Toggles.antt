-- ===== src/Icq/Crypt/Toggles.antt =====
-- Lists of bytes to toggle: hiding a packet twice by the same key finds it out again.
use bencoscar.Prelude.{
  ℕ, zero, suc, ◌+◌, ◌/◌, ◌%◌, ◌^◌, ◌≡◌, refl, sym, ap, ◌∙◌, List, [], ◌∷◌, ◌++◌, ◌==◌, ltb, inl,
  inr, length, if◌then◌else◌, Bool-cases,
}
use bencoscar.Prelude.Bits.{bit_xor_twice, bit_xor_swap}
use bencoscar.Wire.Roast.{table_byte}
use bencoscar.Icq.Crypt.{uint32, xor_at, decrypt_slab, decrypt_loop}
use bencoscar.Icq.Crypt.Table.{v5_table}

pub xor_at-twice : (i m : ℕ) (s : List ℕ) → xor_at i m (xor_at i m s) ≡ s
unfolding xor_at
xor_at-twice i m [] = refl
xor_at-twice zero m (b ∷ s) = ap (λ z. z ∷ s) (bit_xor_twice b m)
xor_at-twice (suc i) m (b ∷ s) = ap (λ z. b ∷ z) (xor_at-twice i m s)

pub xor_at-swap : (i j m n : ℕ) (s : List ℕ) → xor_at i m (xor_at j n s) ≡ xor_at j n (xor_at i m s)
unfolding xor_at
xor_at-swap i j m n [] = refl
xor_at-swap zero zero m n (b ∷ s) = ap (λ z. z ∷ s) (bit_xor_swap b n m)
xor_at-swap zero (suc j) m n (b ∷ s) = refl
xor_at-swap (suc i) zero m n (b ∷ s) = refl
xor_at-swap (suc i) (suc j) m n (b ∷ s) = ap (λ z. b ∷ z) (xor_at-swap i j m n s)

length-xor_at : (i m : ℕ) (s : List ℕ) → length (xor_at i m s) ≡ length s
unfolding xor_at
length-xor_at i m [] = refl
length-xor_at zero m (b ∷ s) = refl
length-xor_at (suc i) m (b ∷ s) = ap suc (length-xor_at i m s)

-- The bytes to toggle, the first one first.
abbrev pub toggle : List (ℕ × ℕ) → List ℕ → List ℕ
toggle [] s = s
toggle ((i, m) ∷ ops) s = toggle ops (xor_at i m s)

pub toggle-xor_at :
    (ops : List (ℕ × ℕ)) (i m : ℕ) (s : List ℕ)
    → toggle ops (xor_at i m s) ≡ xor_at i m (toggle ops s)
toggle-xor_at [] i m s = refl
toggle-xor_at ((j, n) ∷ ops) i m s =
    ap (toggle ops) (xor_at-swap j i n m s) ∙ toggle-xor_at ops i m (xor_at j n s)

pub toggle-twice : (ops : List (ℕ × ℕ)) (s : List ℕ) → toggle ops (toggle ops s) ≡ s
toggle-twice [] s = refl
toggle-twice ((i, m) ∷ ops) s =
    ap (λ z. toggle ops (xor_at i m z)) (toggle-xor_at ops i m s)
    ∙ ap (toggle ops) (xor_at-twice i m (toggle ops s))
    ∙ toggle-twice ops s

pub length-toggle : (ops : List (ℕ × ℕ)) (s : List ℕ) → length (toggle ops s) ≡ length s
length-toggle [] s = refl
length-toggle ((i, m) ∷ ops) s = length-toggle ops (xor_at i m s) ∙ length-xor_at i m s

pub toggle-append :
    (ops ops' : List (ℕ × ℕ)) (s : List ℕ) → toggle (ops ++ ops') s ≡ toggle ops' (toggle ops s)
toggle-append [] ops' s = refl
toggle-append ((i, m) ∷ ops) ops' s = toggle-append ops ops' (xor_at i m s)

-- What one round of DecryptV5Packet toggles.
unfoldable pub slab_ops : ℕ → ℕ → List (ℕ × ℕ)
unfolding table_byte v5_table
slab_ops key i =
    let k = uint32 (key + table_byte v5_table (i % 256)) in
    (if i == 0x16 then [] else (i, k % 256) ∷ (i + 1, k / 2 ^ 8 % 256) ∷ [])
    ++ (if i == 0x12 then [] else (i + 2, k / 2 ^ 16 % 256) ∷ (i + 3, k / 2 ^ 24 % 256) ∷ [])

decrypt_slab-toggle : (key i : ℕ) (s : List ℕ) → decrypt_slab key i s ≡ toggle (slab_ops key i) s
unfolding decrypt_slab slab_ops
decrypt_slab-toggle key i s = elim (Bool-cases (i == 0x16)) [
  | inl t ↦ elim (Bool-cases (i == 0x12)) [ inl u ↦ rw (t, u) refl | inr g ↦ rw (t, g) refl ]
  | inr f ↦ elim (Bool-cases (i == 0x12)) [ inl u ↦ rw (f, u) refl | inr g ↦ rw (f, g) refl ]
]

unfoldable pub loop_ops : ℕ → ℕ → ℕ → ℕ → List (ℕ × ℕ)
unfolding slab_ops
loop_ops zero key i packet_len = []
loop_ops (suc fuel) key i packet_len =
    let rest = loop_ops fuel key (i + 4) packet_len in
    if ltb i (packet_len + 3) then slab_ops key i ++ rest else []

pub decrypt_loop-toggle :
    (fuel key i packet_len : ℕ) (s : List ℕ)
    → decrypt_loop fuel key i packet_len s ≡ toggle (loop_ops fuel key i packet_len) s
unfolding decrypt_loop loop_ops
decrypt_loop-toggle zero key i packet_len s = refl
decrypt_loop-toggle (suc fuel) key i packet_len s = elim (Bool-cases (ltb i (packet_len + 3))) [
  | inl t ↦ rw t (
      decrypt_loop-toggle fuel key (i + 4) packet_len (decrypt_slab key i s)
      ∙ ap (toggle (loop_ops fuel key (i + 4) packet_len)) (decrypt_slab-toggle key i s)
      ∙ sym (toggle-append (slab_ops key i) (loop_ops fuel key (i + 4) packet_len) s))
  | inr f ↦ rw f refl
]
