-- ===== src/State/ScreenNames/Cases.antt =====
-- The lower-case mapping of Unicode 15.0 from 128 on, of single code points, which strings.ToLower
-- applies (state/user.go).
use bencoscar.Prelude.{ℕ, List, [], ◌∷◌, ◌++◌}

-- Every `stride`-th code point from `first` on, `span` after it at most, goes to `target` and on.
pub record CaseRange : Type 0 where
  pub first : ℕ
  pub span : ℕ
  pub stride : ℕ
  pub target : ℕ

abbrev case_range : ℕ → ℕ → ℕ → ℕ → CaseRange
case_range first span stride target = record {
  first = first;
  span = span;
  stride = stride;
  target = target;
}

abbrev lower_0 : List CaseRange
lower_0 =
    case_range 0xc0 22 1 0xe0
    ∷ case_range 0xd8 6 1 0xf8
    ∷ case_range 0x100 46 2 0x101
    ∷ case_range 0x130 0 1 0x69
    ∷ case_range 0x132 4 2 0x133
    ∷ case_range 0x139 14 2 0x13a
    ∷ case_range 0x14a 44 2 0x14b
    ∷ case_range 0x178 0 1 0xff
    ∷ case_range 0x179 4 2 0x17a
    ∷ case_range 0x181 0 1 0x253
    ∷ case_range 0x182 2 2 0x183
    ∷ case_range 0x186 0 1 0x254
    ∷ case_range 0x187 0 1 0x188
    ∷ case_range 0x189 1 1 0x256
    ∷ case_range 0x18b 0 1 0x18c
    ∷ case_range 0x18e 0 1 0x1dd
    ∷ case_range 0x18f 0 1 0x259
    ∷ case_range 0x190 0 1 0x25b
    ∷ case_range 0x191 0 1 0x192
    ∷ case_range 0x193 0 1 0x260
    ∷ case_range 0x194 0 1 0x263
    ∷ case_range 0x196 0 1 0x269
    ∷ case_range 0x197 0 1 0x268
    ∷ case_range 0x198 0 1 0x199
    ∷ case_range 0x19c 0 1 0x26f
    ∷ case_range 0x19d 0 1 0x272
    ∷ case_range 0x19f 0 1 0x275
    ∷ case_range 0x1a0 4 2 0x1a1
    ∷ case_range 0x1a6 0 1 0x280
    ∷ case_range 0x1a7 0 1 0x1a8
    ∷ case_range 0x1a9 0 1 0x283
    ∷ case_range 0x1ac 0 1 0x1ad
    ∷ case_range 0x1ae 0 1 0x288
    ∷ case_range 0x1af 0 1 0x1b0
    ∷ case_range 0x1b1 1 1 0x28a
    ∷ case_range 0x1b3 2 2 0x1b4
    ∷ case_range 0x1b7 0 1 0x292
    ∷ case_range 0x1b8 0 1 0x1b9
    ∷ case_range 0x1bc 0 1 0x1bd
    ∷ case_range 0x1c4 0 1 0x1c6
    ∷ case_range 0x1c5 0 1 0x1c6
    ∷ case_range 0x1c7 0 1 0x1c9
    ∷ case_range 0x1c8 0 1 0x1c9
    ∷ case_range 0x1ca 0 1 0x1cc
    ∷ case_range 0x1cb 16 2 0x1cc
    ∷ case_range 0x1de 16 2 0x1df
    ∷ case_range 0x1f1 0 1 0x1f3
    ∷ case_range 0x1f2 2 2 0x1f3
    ∷ case_range 0x1f6 0 1 0x195
    ∷ case_range 0x1f7 0 1 0x1bf
    ∷ case_range 0x1f8 38 2 0x1f9
    ∷ case_range 0x220 0 1 0x19e
    ∷ case_range 0x222 16 2 0x223
    ∷ case_range 0x23a 0 1 0x2c65
    ∷ case_range 0x23b 0 1 0x23c
    ∷ case_range 0x23d 0 1 0x19a
    ∷ case_range 0x23e 0 1 0x2c66
    ∷ case_range 0x241 0 1 0x242
    ∷ case_range 0x243 0 1 0x180
    ∷ case_range 0x244 0 1 0x289
    ∷ case_range 0x245 0 1 0x28c
    ∷ case_range 0x246 8 2 0x247
    ∷ case_range 0x370 2 2 0x371
    ∷ case_range 0x376 0 1 0x377
    ∷ case_range 0x37f 0 1 0x3f3
    ∷ case_range 0x386 0 1 0x3ac
    ∷ case_range 0x388 2 1 0x3ad
    ∷ case_range 0x38c 0 1 0x3cc
    ∷ case_range 0x38e 1 1 0x3cd
    ∷ case_range 0x391 16 1 0x3b1
    ∷ case_range 0x3a3 8 1 0x3c3
    ∷ case_range 0x3cf 0 1 0x3d7
    ∷ case_range 0x3d8 22 2 0x3d9
    ∷ case_range 0x3f4 0 1 0x3b8
    ∷ case_range 0x3f7 0 1 0x3f8
    ∷ case_range 0x3f9 0 1 0x3f2
    ∷ case_range 0x3fa 0 1 0x3fb
    ∷ case_range 0x3fd 2 1 0x37b
    ∷ case_range 0x400 15 1 0x450
    ∷ case_range 0x410 31 1 0x430
    ∷ case_range 0x460 32 2 0x461
    ∷ case_range 0x48a 52 2 0x48b
    ∷ case_range 0x4c0 0 1 0x4cf
    ∷ case_range 0x4c1 12 2 0x4c2
    ∷ case_range 0x4d0 94 2 0x4d1
    ∷ case_range 0x531 37 1 0x561
    ∷ case_range 0x10a0 37 1 0x2d00
    ∷ case_range 0x10c7 0 1 0x2d27
    ∷ case_range 0x10cd 0 1 0x2d2d
    ∷ case_range 0x13a0 79 1 0xab70
    ∷ case_range 0x13f0 5 1 0x13f8
    ∷ case_range 0x1c90 42 1 0x10d0
    ∷ case_range 0x1cbd 2 1 0x10fd
    ∷ case_range 0x1e00 148 2 0x1e01
    ∷ case_range 0x1e9e 0 1 0xdf
    ∷ case_range 0x1ea0 94 2 0x1ea1
    ∷ case_range 0x1f08 7 1 0x1f00
    ∷ case_range 0x1f18 5 1 0x1f10
    ∷ case_range 0x1f28 7 1 0x1f20
    ∷ case_range 0x1f38 7 1 0x1f30
    ∷ []

abbrev lower_1 : List CaseRange
lower_1 =
    case_range 0x1f48 5 1 0x1f40
    ∷ case_range 0x1f59 6 2 0x1f51
    ∷ case_range 0x1f68 7 1 0x1f60
    ∷ case_range 0x1f88 7 1 0x1f80
    ∷ case_range 0x1f98 7 1 0x1f90
    ∷ case_range 0x1fa8 7 1 0x1fa0
    ∷ case_range 0x1fb8 1 1 0x1fb0
    ∷ case_range 0x1fba 1 1 0x1f70
    ∷ case_range 0x1fbc 0 1 0x1fb3
    ∷ case_range 0x1fc8 3 1 0x1f72
    ∷ case_range 0x1fcc 0 1 0x1fc3
    ∷ case_range 0x1fd8 1 1 0x1fd0
    ∷ case_range 0x1fda 1 1 0x1f76
    ∷ case_range 0x1fe8 1 1 0x1fe0
    ∷ case_range 0x1fea 1 1 0x1f7a
    ∷ case_range 0x1fec 0 1 0x1fe5
    ∷ case_range 0x1ff8 1 1 0x1f78
    ∷ case_range 0x1ffa 1 1 0x1f7c
    ∷ case_range 0x1ffc 0 1 0x1ff3
    ∷ case_range 0x2126 0 1 0x3c9
    ∷ case_range 0x212a 0 1 0x6b
    ∷ case_range 0x212b 0 1 0xe5
    ∷ case_range 0x2132 0 1 0x214e
    ∷ case_range 0x2160 15 1 0x2170
    ∷ case_range 0x2183 0 1 0x2184
    ∷ case_range 0x24b6 25 1 0x24d0
    ∷ case_range 0x2c00 47 1 0x2c30
    ∷ case_range 0x2c60 0 1 0x2c61
    ∷ case_range 0x2c62 0 1 0x26b
    ∷ case_range 0x2c63 0 1 0x1d7d
    ∷ case_range 0x2c64 0 1 0x27d
    ∷ case_range 0x2c67 4 2 0x2c68
    ∷ case_range 0x2c6d 0 1 0x251
    ∷ case_range 0x2c6e 0 1 0x271
    ∷ case_range 0x2c6f 0 1 0x250
    ∷ case_range 0x2c70 0 1 0x252
    ∷ case_range 0x2c72 0 1 0x2c73
    ∷ case_range 0x2c75 0 1 0x2c76
    ∷ case_range 0x2c7e 1 1 0x23f
    ∷ case_range 0x2c80 98 2 0x2c81
    ∷ case_range 0x2ceb 2 2 0x2cec
    ∷ case_range 0x2cf2 0 1 0x2cf3
    ∷ case_range 0xa640 44 2 0xa641
    ∷ case_range 0xa680 26 2 0xa681
    ∷ case_range 0xa722 12 2 0xa723
    ∷ case_range 0xa732 60 2 0xa733
    ∷ case_range 0xa779 2 2 0xa77a
    ∷ case_range 0xa77d 0 1 0x1d79
    ∷ case_range 0xa77e 8 2 0xa77f
    ∷ case_range 0xa78b 0 1 0xa78c
    ∷ case_range 0xa78d 0 1 0x265
    ∷ case_range 0xa790 2 2 0xa791
    ∷ case_range 0xa796 18 2 0xa797
    ∷ case_range 0xa7aa 0 1 0x266
    ∷ case_range 0xa7ab 0 1 0x25c
    ∷ case_range 0xa7ac 0 1 0x261
    ∷ case_range 0xa7ad 0 1 0x26c
    ∷ case_range 0xa7ae 0 1 0x26a
    ∷ case_range 0xa7b0 0 1 0x29e
    ∷ case_range 0xa7b1 0 1 0x287
    ∷ case_range 0xa7b2 0 1 0x29d
    ∷ case_range 0xa7b3 0 1 0xab53
    ∷ case_range 0xa7b4 14 2 0xa7b5
    ∷ case_range 0xa7c4 0 1 0xa794
    ∷ case_range 0xa7c5 0 1 0x282
    ∷ case_range 0xa7c6 0 1 0x1d8e
    ∷ case_range 0xa7c7 2 2 0xa7c8
    ∷ case_range 0xa7d0 0 1 0xa7d1
    ∷ case_range 0xa7d6 2 2 0xa7d7
    ∷ case_range 0xa7f5 0 1 0xa7f6
    ∷ case_range 0xff21 25 1 0xff41
    ∷ case_range 0x10400 39 1 0x10428
    ∷ case_range 0x104b0 35 1 0x104d8
    ∷ case_range 0x10570 10 1 0x10597
    ∷ case_range 0x1057c 14 1 0x105a3
    ∷ case_range 0x1058c 6 1 0x105b3
    ∷ case_range 0x10594 1 1 0x105bb
    ∷ case_range 0x10c80 50 1 0x10cc0
    ∷ case_range 0x118a0 31 1 0x118c0
    ∷ case_range 0x16e40 31 1 0x16e60
    ∷ case_range 0x1e900 33 1 0x1e922
    ∷ []

abbrev pub lower_ranges : List CaseRange
lower_ranges = lower_0 ++ lower_1
