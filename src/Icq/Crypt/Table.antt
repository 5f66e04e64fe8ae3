-- ===== src/Icq/Crypt/Table.antt =====
-- v5Table of server/icq_legacy/wire_legacy_crypt.go.
use bencoscar.Prelude.{ℕ, List, [], ◌∷◌}

unfoldable pub v5_table : List ℕ
v5_table =
    0x59 ∷ 0x60 ∷ 0x37 ∷ 0x6b ∷ 0x65 ∷ 0x62 ∷ 0x46 ∷ 0x48 ∷ 0x53 ∷ 0x61 ∷ 0x4c ∷ 0x59 ∷ 0x60 ∷ 0x57
    ∷ 0x5b ∷ 0x3d ∷ 0x5e ∷ 0x34 ∷ 0x6d ∷ 0x36 ∷ 0x50 ∷ 0x3f ∷ 0x6f ∷ 0x67 ∷ 0x53 ∷ 0x61 ∷ 0x4c
    ∷ 0x59 ∷ 0x40 ∷ 0x47 ∷ 0x63 ∷ 0x39 ∷ 0x50 ∷ 0x5f ∷ 0x5f ∷ 0x3f ∷ 0x6f ∷ 0x47 ∷ 0x43 ∷ 0x69
    ∷ 0x48 ∷ 0x33 ∷ 0x31 ∷ 0x64 ∷ 0x35 ∷ 0x5a ∷ 0x4a ∷ 0x42 ∷ 0x56 ∷ 0x40 ∷ 0x67 ∷ 0x53 ∷ 0x41
    ∷ 0x07 ∷ 0x6c ∷ 0x49 ∷ 0x58 ∷ 0x3b ∷ 0x4d ∷ 0x46 ∷ 0x68 ∷ 0x43 ∷ 0x69 ∷ 0x48 ∷ 0x33 ∷ 0x31
    ∷ 0x44 ∷ 0x65 ∷ 0x62 ∷ 0x46 ∷ 0x48 ∷ 0x53 ∷ 0x41 ∷ 0x07 ∷ 0x6c ∷ 0x69 ∷ 0x48 ∷ 0x33 ∷ 0x51
    ∷ 0x54 ∷ 0x5d ∷ 0x4e ∷ 0x6c ∷ 0x49 ∷ 0x38 ∷ 0x4b ∷ 0x55 ∷ 0x4a ∷ 0x62 ∷ 0x46 ∷ 0x48 ∷ 0x33
    ∷ 0x51 ∷ 0x34 ∷ 0x6d ∷ 0x36 ∷ 0x50 ∷ 0x5f ∷ 0x5f ∷ 0x5f ∷ 0x3f ∷ 0x6f ∷ 0x47 ∷ 0x63 ∷ 0x59
    ∷ 0x40 ∷ 0x67 ∷ 0x33 ∷ 0x31 ∷ 0x64 ∷ 0x35 ∷ 0x5a ∷ 0x6a ∷ 0x52 ∷ 0x6e ∷ 0x3c ∷ 0x51 ∷ 0x34
    ∷ 0x6d ∷ 0x36 ∷ 0x50 ∷ 0x5f ∷ 0x5f ∷ 0x3f ∷ 0x4f ∷ 0x37 ∷ 0x4b ∷ 0x35 ∷ 0x5a ∷ 0x4a ∷ 0x62
    ∷ 0x66 ∷ 0x58 ∷ 0x3b ∷ 0x4d ∷ 0x66 ∷ 0x58 ∷ 0x5b ∷ 0x5d ∷ 0x4e ∷ 0x6c ∷ 0x49 ∷ 0x58 ∷ 0x3b
    ∷ 0x4d ∷ 0x66 ∷ 0x58 ∷ 0x3b ∷ 0x4d ∷ 0x46 ∷ 0x48 ∷ 0x53 ∷ 0x61 ∷ 0x4c ∷ 0x59 ∷ 0x40 ∷ 0x67
    ∷ 0x33 ∷ 0x31 ∷ 0x64 ∷ 0x55 ∷ 0x6a ∷ 0x32 ∷ 0x3e ∷ 0x44 ∷ 0x45 ∷ 0x52 ∷ 0x6e ∷ 0x3c ∷ 0x31
    ∷ 0x64 ∷ 0x55 ∷ 0x6a ∷ 0x52 ∷ 0x4e ∷ 0x6c ∷ 0x69 ∷ 0x48 ∷ 0x53 ∷ 0x61 ∷ 0x4c ∷ 0x39 ∷ 0x30
    ∷ 0x6f ∷ 0x47 ∷ 0x63 ∷ 0x59 ∷ 0x60 ∷ 0x57 ∷ 0x5b ∷ 0x3d ∷ 0x3e ∷ 0x64 ∷ 0x35 ∷ 0x3a ∷ 0x3a
    ∷ 0x5a ∷ 0x6a ∷ 0x52 ∷ 0x4e ∷ 0x6c ∷ 0x69 ∷ 0x48 ∷ 0x53 ∷ 0x61 ∷ 0x6c ∷ 0x49 ∷ 0x58 ∷ 0x3b
    ∷ 0x4d ∷ 0x46 ∷ 0x68 ∷ 0x63 ∷ 0x39 ∷ 0x50 ∷ 0x5f ∷ 0x5f ∷ 0x3f ∷ 0x6f ∷ 0x67 ∷ 0x53 ∷ 0x41
    ∷ 0x25 ∷ 0x41 ∷ 0x3c ∷ 0x51 ∷ 0x54 ∷ 0x3d ∷ 0x5e ∷ 0x54 ∷ 0x5d ∷ 0x4e ∷ 0x4c ∷ 0x39 ∷ 0x50
    ∷ 0x5f ∷ 0x5f ∷ 0x5f ∷ 0x3f ∷ 0x6f ∷ 0x47 ∷ 0x43 ∷ 0x69 ∷ 0x48 ∷ 0x33 ∷ 0x51 ∷ 0x54 ∷ 0x5d
    ∷ 0x6e ∷ 0x3c ∷ 0x31 ∷ 0x64 ∷ 0x35 ∷ 0x5a ∷ 0x00 ∷ 0x00 ∷ []
