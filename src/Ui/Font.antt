-- ===== src/Ui/Font.antt =====
-- ui/gui.c: the font, five columns for each character from the space to the closing brace.
use arctic_tracker_teensy.Base.{ℕ, List, [], ◌∷◌}

abbrev column5 : ℕ → ℕ → ℕ → ℕ → ℕ → List ℕ
column5 a b c d e = a ∷ b ∷ c ∷ d ∷ e ∷ []

-- Fonts8x5
unfoldable pub fonts8x5 : List (List ℕ)
fonts8x5 =
    column5 0x00 0x00 0x00 0x00 0x00
    ∷ column5 0x00 0x00 0x2f 0x00 0x00
    ∷ column5 0x00 0x07 0x00 0x07 0x00
    ∷ column5 0x14 0x7f 0x14 0x7f 0x14
    ∷ column5 0x24 0x2a 0x7f 0x2a 0x12
    ∷ column5 0xc4 0xc8 0x10 0x26 0x46
    ∷ column5 0x36 0x49 0x55 0x22 0x50
    ∷ column5 0x00 0x05 0x03 0x00 0x00
    ∷ column5 0x00 0x1c 0x22 0x41 0x00
    ∷ column5 0x00 0x41 0x22 0x1c 0x00
    ∷ column5 0x14 0x08 0x3e 0x08 0x14
    ∷ column5 0x08 0x08 0x3e 0x08 0x08
    ∷ column5 0x00 0x00 0xa0 0x60 0x00
    ∷ column5 0x10 0x10 0x10 0x10 0x10
    ∷ column5 0x00 0x60 0x60 0x00 0x00
    ∷ column5 0x20 0x10 0x08 0x04 0x02
    ∷ column5 0x3e 0x51 0x49 0x45 0x3e
    ∷ column5 0x00 0x42 0x7f 0x40 0x00
    ∷ column5 0x42 0x61 0x51 0x49 0x46
    ∷ column5 0x21 0x41 0x45 0x4b 0x31
    ∷ column5 0x18 0x14 0x12 0x7f 0x10
    ∷ column5 0x27 0x45 0x45 0x45 0x39
    ∷ column5 0x3c 0x4a 0x49 0x49 0x30
    ∷ column5 0x01 0x71 0x09 0x05 0x03
    ∷ column5 0x36 0x49 0x49 0x49 0x36
    ∷ column5 0x06 0x49 0x49 0x29 0x1e
    ∷ column5 0x00 0x36 0x36 0x00 0x00
    ∷ column5 0x00 0xac 0x6c 0x00 0x00
    ∷ column5 0x08 0x14 0x22 0x41 0x00
    ∷ column5 0x14 0x14 0x14 0x14 0x14
    ∷ column5 0x00 0x41 0x22 0x14 0x08
    ∷ column5 0x02 0x01 0x51 0x09 0x06
    ∷ column5 0x32 0x49 0x59 0x51 0x3e
    ∷ column5 0x7e 0x11 0x11 0x11 0x7e
    ∷ column5 0x7f 0x49 0x49 0x49 0x36
    ∷ column5 0x3e 0x41 0x41 0x41 0x22
    ∷ column5 0x7f 0x41 0x41 0x22 0x1c
    ∷ column5 0x7f 0x49 0x49 0x49 0x41
    ∷ column5 0x7f 0x09 0x09 0x09 0x01
    ∷ column5 0x3e 0x41 0x49 0x49 0x7a
    ∷ column5 0x7f 0x08 0x08 0x08 0x7f
    ∷ column5 0x00 0x41 0x7f 0x41 0x00
    ∷ column5 0x20 0x40 0x41 0x3f 0x01
    ∷ column5 0x7f 0x08 0x14 0x22 0x41
    ∷ column5 0x7f 0x40 0x40 0x40 0x40
    ∷ column5 0x7f 0x02 0x0c 0x02 0x7f
    ∷ column5 0x7f 0x04 0x08 0x10 0x7f
    ∷ column5 0x3e 0x41 0x41 0x41 0x3e
    ∷ column5 0x7f 0x09 0x09 0x09 0x06
    ∷ column5 0x3e 0x41 0x51 0x21 0x5e
    ∷ column5 0x7f 0x09 0x19 0x29 0x46
    ∷ column5 0x46 0x49 0x49 0x49 0x31
    ∷ column5 0x01 0x01 0x7f 0x01 0x01
    ∷ column5 0x3f 0x40 0x40 0x40 0x3f
    ∷ column5 0x1f 0x20 0x40 0x20 0x1f
    ∷ column5 0x3f 0x40 0x38 0x40 0x3f
    ∷ column5 0x63 0x14 0x08 0x14 0x63
    ∷ column5 0x07 0x08 0x70 0x08 0x07
    ∷ column5 0x61 0x51 0x49 0x45 0x43
    ∷ column5 0x00 0x7f 0x41 0x41 0x00
    ∷ column5 0x55 0x2a 0x55 0x2a 0x55
    ∷ column5 0x00 0x41 0x41 0x7f 0x00
    ∷ column5 0x04 0x02 0x01 0x02 0x04
    ∷ column5 0x40 0x40 0x40 0x40 0x40
    ∷ column5 0x00 0x01 0x02 0x04 0x00
    ∷ column5 0x20 0x54 0x54 0x54 0x78
    ∷ column5 0x7f 0x48 0x44 0x44 0x38
    ∷ column5 0x38 0x44 0x44 0x44 0x20
    ∷ column5 0x38 0x44 0x44 0x48 0x7f
    ∷ column5 0x38 0x54 0x54 0x54 0x18
    ∷ column5 0x08 0x7e 0x09 0x01 0x02
    ∷ column5 0x18 0xa4 0xa4 0xa4 0x7c
    ∷ column5 0x7f 0x08 0x04 0x04 0x78
    ∷ column5 0x00 0x44 0x7d 0x40 0x00
    ∷ column5 0x40 0x80 0x84 0x7d 0x00
    ∷ column5 0x7f 0x10 0x28 0x44 0x00
    ∷ column5 0x00 0x41 0x7f 0x40 0x00
    ∷ column5 0x7c 0x04 0x18 0x04 0x78
    ∷ column5 0x7c 0x08 0x04 0x04 0x78
    ∷ column5 0x38 0x44 0x44 0x44 0x38
    ∷ column5 0xfc 0x24 0x24 0x24 0x18
    ∷ column5 0x18 0x24 0x24 0x28 0xfc
    ∷ column5 0x7c 0x08 0x04 0x04 0x08
    ∷ column5 0x48 0x54 0x54 0x54 0x20
    ∷ column5 0x04 0x3f 0x44 0x40 0x20
    ∷ column5 0x3c 0x40 0x40 0x20 0x7c
    ∷ column5 0x1c 0x20 0x40 0x20 0x1c
    ∷ column5 0x3c 0x40 0x30 0x40 0x3c
    ∷ column5 0x44 0x28 0x10 0x28 0x44
    ∷ column5 0x1c 0xa0 0xa0 0xa0 0x7c
    ∷ column5 0x44 0x64 0x54 0x4c 0x44
    ∷ column5 0x00 0x08 0x36 0x41 0x00
    ∷ column5 0x00 0x00 0x7f 0x00 0x00
    ∷ column5 0x00 0x41 0x36 0x08 0x00
    ∷ []
