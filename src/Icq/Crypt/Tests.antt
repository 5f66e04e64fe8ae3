-- ===== src/Icq/Crypt/Tests.antt =====
-- Old ICQ packets at concrete bytes.
use bencoscar.Prelude.{
  get_elem?, if◌then◌else◌, ℕ, ◌≡◌, refl, List, [], ◌∷◌, Bool, true, false, bytes_eq, length, take,
  drop, codes,
}
use bencoscar.Wire.Reader.{Result, ok, err, go_panic}
use bencoscar.Wire.Words.{put_uint, get_uint}
use bencoscar.Wire.Roast.{
  roast_oscar_password, roast_kerberos_password, roast_oscar_java_password, roast_toc_password,
  roast-twice, Hides, xor_some,
}
use bencoscar.Icq.Crypt.Places.{is_hidden, v4_mask}
use bencoscar.Icq.Crypt.{
  decrypt_v5_packet, encrypt_v5_packet, encrypt_v4_packet, decrypt_v4_packet,
  calculate_v5_check_code,
}
use bencoscar.Icq.Crypt.Involution.{decrypt_v5_packet-twice, decrypt_v4_packet-encrypt_v4_packet}

-- 28 bytes
abbrev packet : List ℕ
packet =
    5 ∷ 0 ∷ 0 ∷ 0 ∷ 0 ∷ 0 ∷ 1 ∷ 2 ∷ 3 ∷ 4 ∷ 10 ∷ 11 ∷ 12 ∷ 13 ∷ 14 ∷ 15 ∷ 16 ∷ 17 ∷ 18 ∷ 19 ∷ 0x21
    ∷ 0x43 ∷ 0x65 ∷ 0x87 ∷ 24 ∷ 25 ∷ 26 ∷ 27 ∷ []

decrypt_v5_packet-twice_example :
    (decrypt_v5_packet (decrypt_v5_packet packet) ≡ packet)
    × (length (decrypt_v5_packet packet) ≡ 28)
    × (take 4 (drop 0x14 (decrypt_v5_packet packet)) ≡ 0x21 ∷ 0x43 ∷ 0x65 ∷ 0x87 ∷ [])
decrypt_v5_packet-twice_example = decrypt_v5_packet-twice packet

decrypts_example : bytes_eq (decrypt_v5_packet packet) packet ≡ false
unfolding decrypt_v5_packet get_uint
decrypts_example = refl

-- 28 bytes have six hidden ones, from the fifth byte on.
decrypt_v4_packet-encrypt_v4_packet_example :
    (get_elem? (encrypt_v4_packet packet 0x12345678) 9 ≡ (
      if is_hidden (length packet) 9
      then xor_some (v4_mask 0x12345678 5) (get_elem? packet 9)
      else get_elem? packet 9))
    × (decrypt_v4_packet (encrypt_v4_packet packet 0x12345678) 0x12345678 ≡ packet)
    × (length (encrypt_v4_packet packet 0x12345678) ≡ 28)
decrypt_v4_packet-encrypt_v4_packet_example =
    decrypt_v4_packet-encrypt_v4_packet packet 0x12345678 9

roast-twice_example :
    Hides roast_oscar_password 0xf32681c43986db9271a3b9e6537a957c 16 (codes "secret") 3
    × Hides roast_kerberos_password 0x7691c5e7d0d995dd9e2fead86b21c2bc 16 (codes "secret") 3
    × Hides roast_oscar_java_password 0xf3b36c99953facb6c5fa6b63696cc39a 16 (codes "secret") 3
    × Hides roast_toc_password 0x5469632f546f63 7 (codes "secret") 3
roast-twice_example = roast-twice (codes "secret") 3

abbrev decrypted_again : Result (List ℕ) → Bool
decrypted_again (ok s) = bytes_eq (decrypt_v5_packet s) packet
decrypted_again (err e) = true

-- DecryptV5Packet does not undo EncryptV5Packet, which hides the check code too.
encrypt_v5_example : decrypted_again (encrypt_v5_packet 3 7 packet) ≡ false
unfolding decrypt_v5_packet encrypt_v5_packet put_uint get_uint
encrypt_v5_example = refl

-- The random index of calculateV5CheckCode can be past the end of a packet of 10 bytes.
check_code_example : calculate_v5_check_code 15 0 (take 10 packet) ≡ err go_panic
unfolding calculate_v5_check_code
check_code_example = refl
