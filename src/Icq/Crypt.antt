-- ===== src/Icq/Crypt.antt =====
-- server/icq_legacy/wire_legacy_crypt.go: how packets of the old ICQ protocols are hidden. Random
-- numbers are arguments; `err go_panic` is an index out of range.
pub mod Table
pub mod Toggles
pub mod Places
pub mod Involution
pub mod Tests
use Prim.Native.Nat.{bit_xor, bit_and}
use bencoscar.Prelude.{
  ℕ, zero, suc, ◌+◌, ◌-◌, ◌*◌, ◌/◌, ◌%◌, ◌^◌, List, [], ◌∷◌, ◌++◌, Option, none, some, Bool, true,
  false, ◌==◌, ltb, length, take, drop, get_elem?, if◌then◌else◌,
}
use bencoscar.Wire.Reader.{Result, ok, err, go_panic, ◌>>=ᵉ◌}
use bencoscar.Wire.Words.{little, w32, get_uint, put_uint}
use bencoscar.Wire.Roast.{table_byte, roast_pass}
use bencoscar.Icq.Crypt.Table.{v5_table}

abbrev pub uint32 : ℕ → ℕ
uint32 n = n % 2 ^ 32

-- `packet[i] ^= m` under the guard `i < len(packet)`
unfoldable pub xor_at : ℕ → ℕ → List ℕ → List ℕ
xor_at i m [] = []
xor_at zero m (b ∷ s) = bit_xor b m ∷ s
xor_at (suc i) m (b ∷ s) = b ∷ xor_at i m s

unfoldable pub get_v5_key : List ℕ → ℕ → ℕ
get_v5_key packet packet_len =
    if ltb (length packet) 0x18
    then 0
    else let check = get_uint little (take 4 (drop 0x14 packet)) in
      let a1 = bit_and check 0x0001f000 / 2 ^ 0x0c in
      let a2 = bit_and check 0x07c007c0 / 2 ^ 0x01 in
      let a3 = uint32 (bit_and check 0x003e0001 * 2 ^ 0x0a) in
      let a4 = bit_and check 0xf8000000 / 2 ^ 0x10 in
      let a5 = uint32 (bit_and check 0x0000083e * 2 ^ 0x0f) in
      uint32 (packet_len * 0x68656c6c + uint32 (a5 + a1 + a2 + a3 + a4))

-- One round of the loop of DecryptV5Packet.
unfoldable pub decrypt_slab : ℕ → ℕ → List ℕ → List ℕ
unfolding xor_at table_byte v5_table
decrypt_slab key i packet =
    let k = uint32 (key + table_byte v5_table (i % 256)) in
    let low =
      if i == 0x16 then packet else xor_at (i + 1) (k / 2 ^ 8 % 256) (xor_at i (k % 256) packet) in
    if i == 0x12
    then low
    else xor_at (i + 3) (k / 2 ^ 24 % 256) (xor_at (i + 2) (k / 2 ^ 16 % 256) low)

-- The loop goes by 4 up to the length, so that the length is fuel enough.
unfoldable pub decrypt_loop : ℕ → ℕ → ℕ → ℕ → List ℕ → List ℕ
unfolding decrypt_slab
decrypt_loop zero key i packet_len packet = packet
decrypt_loop (suc fuel) key i packet_len packet =
    let rest = decrypt_loop fuel key (i + 4) packet_len (decrypt_slab key i packet) in
    if ltb i (packet_len + 3) then rest else packet

-- DecryptV5Packet
unfoldable pub decrypt_v5_packet : List ℕ → List ℕ
unfolding get_v5_key decrypt_loop
decrypt_v5_packet packet =
    if ltb (length packet) 0x18
    then packet
    else decrypt_loop (length packet) (get_v5_key packet (length packet)) 0x0a (length packet)
        packet

abbrev pub byte_at : List ℕ → ℕ → Result ℕ
byte_at s i = elim (get_elem? s i) [ none ↦ err go_panic | some b ↦ ok b ]

-- Four bytes in one number.
abbrev pub uint32_of : ℕ → ℕ → ℕ → ℕ → ℕ
uint32_of b3 b2 b1 b0 = b3 * 2 ^ 24 + b2 * 2 ^ 16 + b1 * 2 ^ 8 + b0

-- calculateV5CheckCode, with r1 below 0x10 and r2 below 0xff.
unfoldable pub calculate_v5_check_code : ℕ → ℕ → List ℕ → Result ℕ
unfolding table_byte v5_table
calculate_v5_check_code r1 r2 packet =
    if ltb (length packet) 10
    then ok 0
    else byte_at packet 2 >>=ᵉ λ b2. byte_at packet 4 >>=ᵉ λ b4. byte_at packet 6 >>=ᵉ λ b6.
        byte_at packet 8 >>=ᵉ λ b8. byte_at packet r1 >>=ᵉ λ x3. ok (
          bit_xor (uint32_of b8 b4 b2 b6)
            (bit_xor (uint32_of r1 x3 r2 (table_byte v5_table r2)) 0x00ff00ff))

-- `copy` into a packet, for what ends within it.
abbrev pub put_at : ℕ → List ℕ → List ℕ → List ℕ
put_at i bytes packet = take i packet ++ bytes ++ drop (i + length bytes) packet

-- The loop of EncryptV5Packet, by slabs of up to four bytes.
unfoldable pub encrypt_loop : ℕ → ℕ → ℕ → List ℕ → List ℕ
unfolding table_byte v5_table
encrypt_loop zero key pos packet = packet
encrypt_loop (suc fuel) key pos packet =
    let slab = take 4 (drop pos packet) in
    let word = bit_xor (get_uint little slab) (uint32 (key + table_byte v5_table (pos % 256))) in
    let out = put_at pos (take (length slab) (put_uint little w32 word)) packet in
    let rest = encrypt_loop fuel key (pos + 4) out in
    if ltb pos (length packet) then rest else packet

-- EncryptV5Packet
unfoldable pub encrypt_v5_packet : ℕ → ℕ → List ℕ → Result (List ℕ)
unfolding calculate_v5_check_code encrypt_loop
encrypt_v5_packet r1 r2 packet =
    if ltb (length packet) 0x18
    then ok packet
    else calculate_v5_check_code r1 r2 packet >>=ᵉ λ cc. ok (
        encrypt_loop (length packet) (uint32 (length packet * 0x68656c6c + cc)) 0x0a
          (put_at 0x14 (put_uint little w32 cc) packet))

-- ScramblePassword and UnscramblePassword
unfoldable pub scramble_password : List ℕ → List ℕ
unfolding roast_pass v5_table
scramble_password password = roast_pass password v5_table

unfoldable pub unscramble_password : List ℕ → List ℕ
unfolding roast_pass v5_table
unscramble_password scrambled = roast_pass scrambled v5_table

-- V4CheckCode, with r1 from 1 to below len(packet) - 4, and r2 below 256.
unfoldable pub v4_check_code : ℕ → ℕ → List ℕ → Result ℕ
unfolding table_byte v5_table
v4_check_code r1 r2 packet =
    if ltb (length packet) 10
    then ok 0
    else byte_at packet 8 >>=ᵉ λ b8. byte_at packet 4 >>=ᵉ λ b4. byte_at packet 2 >>=ᵉ λ b2.
        byte_at packet 6 >>=ᵉ λ b6. byte_at packet r1 >>=ᵉ λ x.
        ok (bit_xor (uint32_of b8 b4 b2 b6) (uint32 (uint32_of r1 x r2 (table_byte v5_table r2))))

unfoldable pub v4_encryption_key : ℕ → ℕ → ℕ
v4_encryption_key packet_len check_code = uint32 (packet_len * 0x66756b65 + check_code)

-- The loop of EncryptV4Packet over `n` bytes, from the `i`-th.
unfoldable pub encrypt_v4_loop : ℕ → ℕ → List ℕ → List ℕ → List ℕ
unfolding xor_at table_byte v5_table
encrypt_v4_loop zero i key_bytes packet = packet
encrypt_v4_loop (suc n) i key_bytes packet =
    let table_idx = bit_xor (i % 256) (table_byte key_bytes (i % 4)) in
    encrypt_v4_loop n (i + 1) key_bytes (xor_at (4 + i) (table_byte v5_table table_idx) packet)

-- EncryptV4Packet: a quarter of what follows the first four bytes, but at least one byte.
unfoldable pub encrypt_v4_packet : List ℕ → ℕ → List ℕ
unfolding encrypt_v4_loop
encrypt_v4_packet packet key =
    let quarter = (length packet - 4) / 4 in
    let encrypt_len = if ltb quarter 1 then 1 else quarter in
    if ltb (length packet) 8
    then packet
    else encrypt_v4_loop encrypt_len 0 (put_uint little w32 key) packet

-- DecryptV4Packet
unfoldable pub decrypt_v4_packet : List ℕ → ℕ → List ℕ
unfolding encrypt_v4_packet
decrypt_v4_packet packet key = encrypt_v4_packet packet key

-- AddV5ServerCheckcode
unfoldable pub add_v5_server_checkcode : ℕ → ℕ → List ℕ → Result (List ℕ)
unfolding calculate_v5_check_code
add_v5_server_checkcode r1 r2 packet =
    if ltb (length packet) 21
    then ok packet
    else calculate_v5_check_code r1 r2 packet >>=ᵉ λ cc.
        ok (put_at 0x11 (put_uint little w32 cc) packet)

-- SetV3Checkcode
unfoldable pub set_v3_checkcode : List ℕ → Result (List ℕ)
unfolding table_byte v5_table
set_v3_checkcode packet =
    if ltb (length packet) 16
    then ok packet
    else byte_at packet 0 >>=ᵉ λ b0. byte_at packet 2 >>=ᵉ λ b2. byte_at packet 4 >>=ᵉ λ b4.
        byte_at packet 6 >>=ᵉ λ b6. byte_at packet 8 >>=ᵉ λ b8. ok (
          let table_offset = bit_xor (bit_xor (bit_xor b0 b2) b4) b6 % 256 in
          let check_b =
            bit_xor (table_offset * 2 ^ 8 + table_byte v5_table table_offset) 0x00ff00ff in
          put_at 12 (put_uint little w32 (bit_xor (uint32_of b8 b4 b2 b6) check_b)) packet)
