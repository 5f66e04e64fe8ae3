-- ===== src/Icq/Crypt/Involution.antt =====
-- DecryptV5Packet and EncryptV4Packet undo themselves.
use bencoscar.Prelude.{
  get_elem?, ℕ, zero, suc, ◌+◌, ◌-◌, ◌*◌, ◌/◌, ◌%◌, ◌≤◌, ◌<◌, ◌≡◌, refl, sym, ap, ◌∙◌, subst, List,
  [], ◌∷◌, true, false, ◌==◌, ltb, ◌⊎◌, inl, inr, length, take, drop, All, All-append,
  if◌then◌else◌, arith, Bool-cases,
}
use Prim.Native.Nat.{bit_xor}
use bencoscar.Wire.Words.{little, w32, put_uint}
use bencoscar.Wire.Roast.{table_byte, xor_some}
use bencoscar.Icq.Crypt.Places.{is_hidden, v4_mask, encrypt_v4_packet-at}
use bencoscar.Icq.Crypt.{
  xor_at, get_v5_key, decrypt_slab, decrypt_loop, decrypt_v5_packet, encrypt_v4_loop,
  encrypt_v4_packet, decrypt_v4_packet,
}
use bencoscar.Icq.Crypt.Table.{v5_table}
use bencoscar.Icq.Crypt.Toggles.{
  toggle, toggle-twice, length-toggle, slab_ops, loop_ops, decrypt_loop-toggle,
}

-- A toggle that is not in the check code.
abbrev Outside : ℕ × ℕ → Type 0
Outside (i, m) = (i < 0x14) ⊎ (0x18 ≤ i)

drop-xor_at : (n i m : ℕ) (s : List ℕ) → i < n → drop n (xor_at i m s) ≡ drop n s
unfolding xor_at
drop-xor_at zero i m s h = absurd (omega arith)
drop-xor_at (suc n) i m [] h = refl
drop-xor_at (suc n) zero m (b ∷ s) h = refl
drop-xor_at (suc n) (suc i) m (b ∷ s) h = drop-xor_at n i m s (omega arith)

take-drop-xor_at :
    (n w i m : ℕ) (s : List ℕ) → n + w ≤ i → take w (drop n (xor_at i m s)) ≡ take w (drop n s)
unfolding xor_at
take-drop-xor_at zero zero i m s h = refl
take-drop-xor_at zero (suc w) i m [] h = refl
take-drop-xor_at zero (suc w) zero m (b ∷ s) h = absurd (omega arith)
take-drop-xor_at zero (suc w) (suc i) m (b ∷ s) h =
    ap (λ z. b ∷ z) (take-drop-xor_at zero w i m s (omega arith))
take-drop-xor_at (suc n) w i m [] h = refl
take-drop-xor_at (suc n) w zero m (b ∷ s) h = absurd (omega arith)
take-drop-xor_at (suc n) w (suc i) m (b ∷ s) h = take-drop-xor_at n w i m s (omega arith)

check_bytes-toggle :
    (ops : List (ℕ × ℕ)) (s : List ℕ)
    → All Outside ops
    → take 4 (drop 0x14 (toggle ops s)) ≡ take 4 (drop 0x14 s)
check_bytes-toggle [] s h = refl
check_bytes-toggle ((i, m) ∷ ops) s (o, os) = check_bytes-toggle ops (xor_at i m s) os ∙ elim o [
  | inl l ↦ ap (take 4) (drop-xor_at 0x14 i m s l)
  | inr g ↦ take-drop-xor_at 0x14 4 i m s g
]

-- Where a round of the loop can start.
abbrev Start : ℕ → Type 0
Start i = (i ≡ 10) ⊎ (i ≡ 14) ⊎ (i ≡ 18) ⊎ (i ≡ 22) ⊎ (24 ≤ i)

slab_later : (key i : ℕ) → 24 ≤ i → All Outside (slab_ops key i)
unfolding slab_ops
slab_later key i h =
    let f : (i == 0x16) ≡ false = ground (arith, h) in
    let g : (i == 0x12) ≡ false = ground (arith, h) in
    rw (f, g)
      (inr h, (inr (omega (arith, h)), (inr (omega (arith, h)), (inr (omega (arith, h)), tt))))

slab-Outside : (key i : ℕ) → Start i → All Outside (slab_ops key i)
unfolding slab_ops
slab-Outside key i (inl e) =
    subst (λ z. All Outside (slab_ops key z)) (sym e)
      (inl (omega arith), (inl (omega arith), (inl (omega arith), (inl (omega arith), tt))))
slab-Outside key i (inr (inl e)) =
    subst (λ z. All Outside (slab_ops key z)) (sym e)
      (inl (omega arith), (inl (omega arith), (inl (omega arith), (inl (omega arith), tt))))
slab-Outside key i (inr (inr (inl e))) =
    subst (λ z. All Outside (slab_ops key z)) (sym e) (inl (omega arith), (inl (omega arith), tt))
slab-Outside key i (inr (inr (inr (inl e)))) =
    subst (λ z. All Outside (slab_ops key z)) (sym e) (inr (omega arith), (inr (omega arith), tt))
slab-Outside key i (inr (inr (inr (inr h)))) = slab_later key i h

next-Start : (i : ℕ) → Start i → Start (i + 4)
next-Start i (inl e) = inr (inl (omega (arith, e)))
next-Start i (inr (inl e)) = inr (inr (inl (omega (arith, e))))
next-Start i (inr (inr (inl e))) = inr (inr (inr (inl (omega (arith, e)))))
next-Start i (inr (inr (inr (inl e)))) = inr (inr (inr (inr (omega (arith, e)))))
next-Start i (inr (inr (inr (inr h)))) = inr (inr (inr (inr (omega (arith, h)))))

loop-Outside : (fuel key i packet_len : ℕ) → Start i → All Outside (loop_ops fuel key i packet_len)
unfolding loop_ops
loop-Outside zero key i packet_len h = tt
loop-Outside (suc fuel) key i packet_len h = elim (Bool-cases (ltb i (packet_len + 3))) [
  | inl t ↦ rw t (
      All-append Outside (slab_ops key i) (loop_ops fuel key (i + 4) packet_len)
        (slab-Outside key i h) (loop-Outside fuel key (i + 4) packet_len (next-Start i h)))
  | inr f ↦ rw f tt
]

get_v5_key-check_bytes :
    (s t : List ℕ) (n : ℕ)
    → length s ≡ length t
    → take 4 (drop 0x14 s) ≡ take 4 (drop 0x14 t)
    → get_v5_key s n ≡ get_v5_key t n
unfolding get_v5_key
get_v5_key-check_bytes s t n a b = rw (a, b) refl

-- More fuel than the length of the packet changes nothing.
decrypt_loop-enough :
    (fuel key i packet_len : ℕ) (s : List ℕ)
    → packet_len + 3 ≤ i + 4 * fuel
    → decrypt_loop (suc fuel) key i packet_len s ≡ decrypt_loop fuel key i packet_len s
unfolding decrypt_loop
decrypt_loop-enough zero key i packet_len s h =
    let f : ltb i (packet_len + 3) ≡ false = ground (arith, h) in rw f refl
decrypt_loop-enough (suc fuel) key i packet_len s h =
    ap (λ z. if ltb i (packet_len + 3) then z else s)
      (decrypt_loop-enough fuel key (i + 4) packet_len (decrypt_slab key i s) (omega (arith, h)))

abbrev ops_of : ℕ → ℕ → List (ℕ × ℕ)
ops_of packet_len key = loop_ops packet_len key 0x0a packet_len

decrypted :
    (s : List ℕ)
    → ltb (length s) 0x18 ≡ false
    → decrypt_v5_packet s ≡ toggle (ops_of (length s) (get_v5_key s (length s))) s
unfolding decrypt_v5_packet
decrypted s f =
    ap (λ b. if b then s else decrypt_loop (length s) (get_v5_key s (length s)) 0x0a (length s) s) f
    ∙ decrypt_loop-toggle (length s) (get_v5_key s (length s)) 0x0a (length s) s

toggled_key : (s : List ℕ) (n key : ℕ) → get_v5_key (toggle (ops_of n key) s) n ≡ get_v5_key s n
toggled_key s n key =
    get_v5_key-check_bytes (toggle (ops_of n key) s) s n (length-toggle (ops_of n key) s)
      (check_bytes-toggle (ops_of n key) s (loop-Outside n key 0x0a n (inl refl)))

toggled_back :
    (s t : List ℕ)
    → ltb (length s) 0x18 ≡ false
    → t ≡ toggle (ops_of (length s) (get_v5_key s (length s))) s
    → decrypt_v5_packet t ≡ s
toggled_back s t f e =
    let key = get_v5_key s (length s) in
    let ops = ops_of (length s) key in
    let l : length t ≡ length s = ap length e ∙ length-toggle ops s in
    let k : get_v5_key t (length t) ≡ key =
      ap (get_v5_key t) l ∙ ap (λ z. get_v5_key z (length s)) e ∙ toggled_key s (length s) key in
    decrypted t (ap (λ z. ltb z 0x18) l ∙ f)
    ∙ ap (λ z. toggle (ops_of z (get_v5_key t (length t))) t) l
    ∙ ap (λ z. toggle (ops_of (length s) z) t) k
    ∙ ap (toggle ops) e
    ∙ toggle-twice ops s

-- DecryptV5Packet, applied to what it returns, finds out the packet again; it keeps the length and
-- the four bytes of the check code.
pub decrypt_v5_packet-twice :
    (s : List ℕ)
    → (decrypt_v5_packet (decrypt_v5_packet s) ≡ s)
      × (length (decrypt_v5_packet s) ≡ length s)
      × (take 4 (drop 0x14 (decrypt_v5_packet s)) ≡ take 4 (drop 0x14 s))
unfolding decrypt_v5_packet
decrypt_v5_packet-twice s = elim (Bool-cases (ltb (length s) 0x18)) [
  | inl t ↦
      let e = short s t in
      (ap decrypt_v5_packet e ∙ e, ap length e, ap (λ z. take 4 (drop 0x14 z)) e)
  | inr f ↦
      let e = decrypted s f in
      let ops = ops_of (length s) (get_v5_key s (length s)) in
      (
        toggled_back s (decrypt_v5_packet s) f e,
        ap length e ∙ length-toggle ops s,
        ap (λ z. take 4 (drop 0x14 z)) e
            ∙ check_bytes-toggle ops s
                (loop-Outside (length s) (get_v5_key s (length s)) 0x0a (length s) (inl refl)),
      )
]
  where
    short : (s : List ℕ) → ltb (length s) 0x18 ≡ true → decrypt_v5_packet s ≡ s
    short s t = rw t refl

v4_ops : ℕ → ℕ → List ℕ → List (ℕ × ℕ)
unfolding table_byte v5_table
v4_ops zero i key_bytes = []
v4_ops (suc n) i key_bytes =
    (4 + i, table_byte v5_table (bit_xor (i % 256) (table_byte key_bytes (i % 4))))
    ∷ v4_ops n (i + 1) key_bytes

encrypt_v4_loop-toggle :
    (n i : ℕ) (key_bytes s : List ℕ)
    → encrypt_v4_loop n i key_bytes s ≡ toggle (v4_ops n i key_bytes) s
unfolding encrypt_v4_loop v4_ops
encrypt_v4_loop-toggle zero i key_bytes s = refl
encrypt_v4_loop-toggle (suc n) i key_bytes s = encrypt_v4_loop-toggle n (i + 1) key_bytes _

abbrev v4_len : ℕ → ℕ
v4_len n = let quarter = (n - 4) / 4 in if ltb quarter 1 then 1 else quarter

v4_packet-back :
    (s : List ℕ) (key : ℕ)
    → (decrypt_v4_packet (encrypt_v4_packet s key) key ≡ s)
      × (length (encrypt_v4_packet s key) ≡ length s)
unfolding decrypt_v4_packet encrypt_v4_packet
v4_packet-back s key = elim (Bool-cases (ltb (length s) 8)) [
  | inl t ↦ rw (t, t) (refl, refl)
  | inr f ↦ hidden f
]
  where
    key_bytes : List ℕ
    key_bytes = put_uint little w32 key

    ops : List (ℕ × ℕ)
    ops = v4_ops (v4_len (length s)) 0 key_bytes

    hides :
        (t : List ℕ)
        → length t ≡ length s
        → ltb (length s) 8 ≡ false
        → encrypt_v4_packet t key ≡ toggle ops t
    hides t l f =
        let g : ltb (length t) 8 ≡ false = ap (λ z. ltb z 8) l ∙ f in
        let e : encrypt_v4_packet t key ≡ toggle (v4_ops (v4_len (length t)) 0 key_bytes) t =
          rw g (encrypt_v4_loop-toggle (v4_len (length t)) 0 key_bytes t) in
        e ∙ ap (λ z. toggle (v4_ops (v4_len z) 0 key_bytes) t) l

    hidden :
        ltb (length s) 8 ≡ false
        → (decrypt_v4_packet (encrypt_v4_packet s key) key ≡ s)
          × (length (encrypt_v4_packet s key) ≡ length s)
    hidden f =
        let e = hides s refl f in
        let l : length (encrypt_v4_packet s key) ≡ length s = ap length e ∙ length-toggle ops s in
        (hides (encrypt_v4_packet s key) l f ∙ ap (toggle ops) e ∙ toggle-twice ops s, l)

-- EncryptV4Packet hides a quarter of the bytes that follow the first four: the x-th of them, from 0, is
-- changed by an exclusive or with v5Table at the place that the low byte of x and the byte of the key
-- at x modulo 4, the lowest first, make by an exclusive or. The other bytes and the length stay, and
-- DecryptV4Packet with the same key makes the packet of it again.
pub decrypt_v4_packet-encrypt_v4_packet :
    (s : List ℕ) (key j : ℕ)
    → (get_elem? (encrypt_v4_packet s key) j ≡ (
        if is_hidden (length s) j
        then xor_some (v4_mask key (j - 4)) (get_elem? s j)
        else get_elem? s j))
      × (decrypt_v4_packet (encrypt_v4_packet s key) key ≡ s)
      × (length (encrypt_v4_packet s key) ≡ length s)
decrypt_v4_packet-encrypt_v4_packet s key j =
    let (back, len) = v4_packet-back s key in (encrypt_v4_packet-at key j s, back, len)
