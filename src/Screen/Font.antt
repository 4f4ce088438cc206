-- ===== src/Screen/Font.antt =====
-- common/ui/include/rjs/font8x16.h and common/ui/src/font8x16.c: the font, one row of 8 pixels a byte.
use robot_joint_stack.Prelude.{ℕ, List, [], ◌∷◌}

abbrev pub font_first : ℕ
font_first = 0x20

abbrev pub font_last : ℕ
font_last = 0x7e

-- `rjs_font8x16`.
abbrev pub font8x16 : List (List ℕ)
font8x16 =
    (0 ∷ 0 ∷ 0 ∷ 0 ∷ 0 ∷ 0 ∷ 0 ∷ 0 ∷ 0 ∷ 0 ∷ 0 ∷ 0 ∷ 0 ∷ 0 ∷ 0 ∷ 0 ∷ [])
    ∷ (0 ∷ 0 ∷ 8 ∷ 8 ∷ 8 ∷ 8 ∷ 8 ∷ 8 ∷ 8 ∷ 0 ∷ 0 ∷ 8 ∷ 8 ∷ 0 ∷ 0 ∷ 0 ∷ [])
    ∷ (0 ∷ 0 ∷ 18 ∷ 18 ∷ 18 ∷ 18 ∷ 0 ∷ 0 ∷ 0 ∷ 0 ∷ 0 ∷ 0 ∷ 0 ∷ 0 ∷ 0 ∷ 0 ∷ [])
    ∷ (0 ∷ 0 ∷ 9 ∷ 27 ∷ 18 ∷ 127 ∷ 18 ∷ 54 ∷ 36 ∷ 255 ∷ 36 ∷ 44 ∷ 72 ∷ 0 ∷ 0 ∷ 0 ∷ [])
    ∷ (0 ∷ 8 ∷ 8 ∷ 62 ∷ 105 ∷ 72 ∷ 72 ∷ 56 ∷ 14 ∷ 9 ∷ 9 ∷ 73 ∷ 62 ∷ 8 ∷ 8 ∷ 0 ∷ [])
    ∷ (0 ∷ 0 ∷ 112 ∷ 136 ∷ 136 ∷ 136 ∷ 115 ∷ 28 ∷ 103 ∷ 8 ∷ 8 ∷ 8 ∷ 7 ∷ 0 ∷ 0 ∷ 0 ∷ [])
    ∷ (0 ∷ 0 ∷ 30 ∷ 32 ∷ 32 ∷ 48 ∷ 56 ∷ 105 ∷ 69 ∷ 71 ∷ 66 ∷ 34 ∷ 29 ∷ 0 ∷ 0 ∷ 0 ∷ [])
    ∷ (0 ∷ 0 ∷ 8 ∷ 8 ∷ 8 ∷ 8 ∷ 0 ∷ 0 ∷ 0 ∷ 0 ∷ 0 ∷ 0 ∷ 0 ∷ 0 ∷ 0 ∷ 0 ∷ [])
    ∷ (0 ∷ 0 ∷ 4 ∷ 8 ∷ 8 ∷ 16 ∷ 16 ∷ 16 ∷ 16 ∷ 16 ∷ 16 ∷ 16 ∷ 8 ∷ 8 ∷ 4 ∷ 0 ∷ [])
    ∷ (0 ∷ 0 ∷ 32 ∷ 16 ∷ 16 ∷ 8 ∷ 8 ∷ 8 ∷ 8 ∷ 8 ∷ 8 ∷ 8 ∷ 16 ∷ 16 ∷ 32 ∷ 0 ∷ [])
    ∷ (0 ∷ 0 ∷ 8 ∷ 73 ∷ 62 ∷ 28 ∷ 107 ∷ 8 ∷ 0 ∷ 0 ∷ 0 ∷ 0 ∷ 0 ∷ 0 ∷ 0 ∷ 0 ∷ [])
    ∷ (0 ∷ 0 ∷ 0 ∷ 0 ∷ 0 ∷ 8 ∷ 8 ∷ 8 ∷ 127 ∷ 8 ∷ 8 ∷ 8 ∷ 0 ∷ 0 ∷ 0 ∷ 0 ∷ [])
    ∷ (0 ∷ 0 ∷ 0 ∷ 0 ∷ 0 ∷ 0 ∷ 0 ∷ 0 ∷ 0 ∷ 0 ∷ 0 ∷ 12 ∷ 12 ∷ 8 ∷ 16 ∷ 0 ∷ [])
    ∷ (0 ∷ 0 ∷ 0 ∷ 0 ∷ 0 ∷ 0 ∷ 0 ∷ 0 ∷ 30 ∷ 0 ∷ 0 ∷ 0 ∷ 0 ∷ 0 ∷ 0 ∷ 0 ∷ [])
    ∷ (0 ∷ 0 ∷ 0 ∷ 0 ∷ 0 ∷ 0 ∷ 0 ∷ 0 ∷ 0 ∷ 0 ∷ 0 ∷ 12 ∷ 12 ∷ 0 ∷ 0 ∷ 0 ∷ [])
    ∷ (0 ∷ 0 ∷ 1 ∷ 2 ∷ 2 ∷ 4 ∷ 4 ∷ 8 ∷ 8 ∷ 16 ∷ 16 ∷ 32 ∷ 32 ∷ 64 ∷ 0 ∷ 0 ∷ [])
    ∷ (0 ∷ 0 ∷ 28 ∷ 34 ∷ 65 ∷ 65 ∷ 77 ∷ 77 ∷ 65 ∷ 65 ∷ 65 ∷ 34 ∷ 28 ∷ 0 ∷ 0 ∷ 0 ∷ [])
    ∷ (0 ∷ 0 ∷ 24 ∷ 40 ∷ 8 ∷ 8 ∷ 8 ∷ 8 ∷ 8 ∷ 8 ∷ 8 ∷ 8 ∷ 62 ∷ 0 ∷ 0 ∷ 0 ∷ [])
    ∷ (0 ∷ 0 ∷ 60 ∷ 99 ∷ 65 ∷ 1 ∷ 1 ∷ 2 ∷ 4 ∷ 8 ∷ 16 ∷ 32 ∷ 127 ∷ 0 ∷ 0 ∷ 0 ∷ [])
    ∷ (0 ∷ 0 ∷ 60 ∷ 67 ∷ 1 ∷ 1 ∷ 3 ∷ 28 ∷ 3 ∷ 1 ∷ 1 ∷ 67 ∷ 62 ∷ 0 ∷ 0 ∷ 0 ∷ [])
    ∷ (0 ∷ 0 ∷ 6 ∷ 14 ∷ 10 ∷ 18 ∷ 50 ∷ 34 ∷ 66 ∷ 127 ∷ 2 ∷ 2 ∷ 2 ∷ 0 ∷ 0 ∷ 0 ∷ [])
    ∷ (0 ∷ 0 ∷ 126 ∷ 64 ∷ 64 ∷ 64 ∷ 124 ∷ 66 ∷ 1 ∷ 1 ∷ 1 ∷ 66 ∷ 60 ∷ 0 ∷ 0 ∷ 0 ∷ [])
    ∷ (0 ∷ 0 ∷ 30 ∷ 49 ∷ 32 ∷ 64 ∷ 94 ∷ 99 ∷ 65 ∷ 65 ∷ 65 ∷ 35 ∷ 30 ∷ 0 ∷ 0 ∷ 0 ∷ [])
    ∷ (0 ∷ 0 ∷ 127 ∷ 3 ∷ 2 ∷ 2 ∷ 4 ∷ 4 ∷ 8 ∷ 8 ∷ 16 ∷ 16 ∷ 32 ∷ 0 ∷ 0 ∷ 0 ∷ [])
    ∷ (0 ∷ 0 ∷ 62 ∷ 99 ∷ 65 ∷ 65 ∷ 99 ∷ 28 ∷ 99 ∷ 65 ∷ 65 ∷ 99 ∷ 62 ∷ 0 ∷ 0 ∷ 0 ∷ [])
    ∷ (0 ∷ 0 ∷ 60 ∷ 98 ∷ 65 ∷ 65 ∷ 65 ∷ 99 ∷ 61 ∷ 1 ∷ 2 ∷ 70 ∷ 60 ∷ 0 ∷ 0 ∷ 0 ∷ [])
    ∷ (0 ∷ 0 ∷ 0 ∷ 0 ∷ 0 ∷ 12 ∷ 12 ∷ 0 ∷ 0 ∷ 0 ∷ 0 ∷ 12 ∷ 12 ∷ 0 ∷ 0 ∷ 0 ∷ [])
    ∷ (0 ∷ 0 ∷ 0 ∷ 0 ∷ 0 ∷ 12 ∷ 12 ∷ 0 ∷ 0 ∷ 0 ∷ 0 ∷ 12 ∷ 12 ∷ 8 ∷ 16 ∷ 0 ∷ [])
    ∷ (0 ∷ 0 ∷ 0 ∷ 0 ∷ 0 ∷ 0 ∷ 7 ∷ 56 ∷ 96 ∷ 56 ∷ 7 ∷ 0 ∷ 0 ∷ 0 ∷ 0 ∷ 0 ∷ [])
    ∷ (0 ∷ 0 ∷ 0 ∷ 0 ∷ 0 ∷ 0 ∷ 127 ∷ 0 ∷ 0 ∷ 127 ∷ 0 ∷ 0 ∷ 0 ∷ 0 ∷ 0 ∷ 0 ∷ [])
    ∷ (0 ∷ 0 ∷ 0 ∷ 0 ∷ 0 ∷ 64 ∷ 56 ∷ 7 ∷ 1 ∷ 7 ∷ 56 ∷ 64 ∷ 0 ∷ 0 ∷ 0 ∷ 0 ∷ [])
    ∷ (0 ∷ 0 ∷ 30 ∷ 33 ∷ 1 ∷ 1 ∷ 2 ∷ 12 ∷ 8 ∷ 8 ∷ 0 ∷ 8 ∷ 8 ∷ 0 ∷ 0 ∷ 0 ∷ [])
    ∷ (0 ∷ 0 ∷ 0 ∷ 30 ∷ 51 ∷ 33 ∷ 71 ∷ 73 ∷ 73 ∷ 73 ∷ 73 ∷ 71 ∷ 32 ∷ 48 ∷ 14 ∷ 0 ∷ [])
    ∷ (0 ∷ 0 ∷ 8 ∷ 20 ∷ 20 ∷ 20 ∷ 20 ∷ 34 ∷ 34 ∷ 62 ∷ 34 ∷ 65 ∷ 65 ∷ 0 ∷ 0 ∷ 0 ∷ [])
    ∷ (0 ∷ 0 ∷ 126 ∷ 67 ∷ 65 ∷ 65 ∷ 67 ∷ 126 ∷ 67 ∷ 65 ∷ 65 ∷ 67 ∷ 126 ∷ 0 ∷ 0 ∷ 0 ∷ [])
    ∷ (0 ∷ 0 ∷ 30 ∷ 33 ∷ 32 ∷ 64 ∷ 64 ∷ 64 ∷ 64 ∷ 64 ∷ 32 ∷ 33 ∷ 30 ∷ 0 ∷ 0 ∷ 0 ∷ [])
    ∷ (0 ∷ 0 ∷ 124 ∷ 70 ∷ 66 ∷ 65 ∷ 65 ∷ 65 ∷ 65 ∷ 65 ∷ 66 ∷ 70 ∷ 124 ∷ 0 ∷ 0 ∷ 0 ∷ [])
    ∷ (0 ∷ 0 ∷ 127 ∷ 64 ∷ 64 ∷ 64 ∷ 64 ∷ 127 ∷ 64 ∷ 64 ∷ 64 ∷ 64 ∷ 127 ∷ 0 ∷ 0 ∷ 0 ∷ [])
    ∷ (0 ∷ 0 ∷ 127 ∷ 64 ∷ 64 ∷ 64 ∷ 64 ∷ 127 ∷ 64 ∷ 64 ∷ 64 ∷ 64 ∷ 64 ∷ 0 ∷ 0 ∷ 0 ∷ [])
    ∷ (0 ∷ 0 ∷ 30 ∷ 33 ∷ 32 ∷ 64 ∷ 64 ∷ 71 ∷ 65 ∷ 65 ∷ 33 ∷ 33 ∷ 30 ∷ 0 ∷ 0 ∷ 0 ∷ [])
    ∷ (0 ∷ 0 ∷ 65 ∷ 65 ∷ 65 ∷ 65 ∷ 65 ∷ 127 ∷ 65 ∷ 65 ∷ 65 ∷ 65 ∷ 65 ∷ 0 ∷ 0 ∷ 0 ∷ [])
    ∷ (0 ∷ 0 ∷ 62 ∷ 8 ∷ 8 ∷ 8 ∷ 8 ∷ 8 ∷ 8 ∷ 8 ∷ 8 ∷ 8 ∷ 62 ∷ 0 ∷ 0 ∷ 0 ∷ [])
    ∷ (0 ∷ 0 ∷ 30 ∷ 2 ∷ 2 ∷ 2 ∷ 2 ∷ 2 ∷ 2 ∷ 2 ∷ 2 ∷ 70 ∷ 60 ∷ 0 ∷ 0 ∷ 0 ∷ [])
    ∷ (0 ∷ 0 ∷ 65 ∷ 66 ∷ 68 ∷ 72 ∷ 80 ∷ 104 ∷ 72 ∷ 68 ∷ 66 ∷ 66 ∷ 65 ∷ 0 ∷ 0 ∷ 0 ∷ [])
    ∷ (0 ∷ 0 ∷ 64 ∷ 64 ∷ 64 ∷ 64 ∷ 64 ∷ 64 ∷ 64 ∷ 64 ∷ 64 ∷ 64 ∷ 127 ∷ 0 ∷ 0 ∷ 0 ∷ [])
    ∷ (0 ∷ 0 ∷ 99 ∷ 99 ∷ 99 ∷ 85 ∷ 85 ∷ 85 ∷ 73 ∷ 65 ∷ 65 ∷ 65 ∷ 65 ∷ 0 ∷ 0 ∷ 0 ∷ [])
    ∷ (0 ∷ 0 ∷ 97 ∷ 97 ∷ 81 ∷ 81 ∷ 89 ∷ 73 ∷ 73 ∷ 69 ∷ 69 ∷ 67 ∷ 67 ∷ 0 ∷ 0 ∷ 0 ∷ [])
    ∷ (0 ∷ 0 ∷ 28 ∷ 34 ∷ 65 ∷ 65 ∷ 65 ∷ 65 ∷ 65 ∷ 65 ∷ 65 ∷ 34 ∷ 28 ∷ 0 ∷ 0 ∷ 0 ∷ [])
    ∷ (0 ∷ 0 ∷ 124 ∷ 67 ∷ 65 ∷ 65 ∷ 65 ∷ 67 ∷ 126 ∷ 64 ∷ 64 ∷ 64 ∷ 64 ∷ 0 ∷ 0 ∷ 0 ∷ [])
    ∷ (0 ∷ 0 ∷ 28 ∷ 34 ∷ 65 ∷ 65 ∷ 65 ∷ 65 ∷ 65 ∷ 65 ∷ 65 ∷ 34 ∷ 30 ∷ 6 ∷ 2 ∷ 0 ∷ [])
    ∷ (0 ∷ 0 ∷ 126 ∷ 67 ∷ 65 ∷ 65 ∷ 67 ∷ 124 ∷ 66 ∷ 65 ∷ 65 ∷ 65 ∷ 64 ∷ 0 ∷ 0 ∷ 0 ∷ [])
    ∷ (0 ∷ 0 ∷ 30 ∷ 99 ∷ 64 ∷ 64 ∷ 96 ∷ 28 ∷ 3 ∷ 1 ∷ 1 ∷ 99 ∷ 62 ∷ 0 ∷ 0 ∷ 0 ∷ [])
    ∷ (0 ∷ 0 ∷ 127 ∷ 8 ∷ 8 ∷ 8 ∷ 8 ∷ 8 ∷ 8 ∷ 8 ∷ 8 ∷ 8 ∷ 8 ∷ 0 ∷ 0 ∷ 0 ∷ [])
    ∷ (0 ∷ 0 ∷ 65 ∷ 65 ∷ 65 ∷ 65 ∷ 65 ∷ 65 ∷ 65 ∷ 65 ∷ 65 ∷ 99 ∷ 62 ∷ 0 ∷ 0 ∷ 0 ∷ [])
    ∷ (0 ∷ 0 ∷ 65 ∷ 65 ∷ 34 ∷ 34 ∷ 34 ∷ 34 ∷ 20 ∷ 20 ∷ 20 ∷ 20 ∷ 8 ∷ 0 ∷ 0 ∷ 0 ∷ [])
    ∷ (0 ∷ 0 ∷ 128 ∷ 128 ∷ 128 ∷ 73 ∷ 85 ∷ 85 ∷ 85 ∷ 85 ∷ 85 ∷ 34 ∷ 34 ∷ 0 ∷ 0 ∷ 0 ∷ [])
    ∷ (0 ∷ 0 ∷ 65 ∷ 34 ∷ 34 ∷ 20 ∷ 20 ∷ 8 ∷ 20 ∷ 20 ∷ 34 ∷ 34 ∷ 65 ∷ 0 ∷ 0 ∷ 0 ∷ [])
    ∷ (0 ∷ 0 ∷ 193 ∷ 65 ∷ 34 ∷ 50 ∷ 20 ∷ 8 ∷ 8 ∷ 8 ∷ 8 ∷ 8 ∷ 8 ∷ 0 ∷ 0 ∷ 0 ∷ [])
    ∷ (0 ∷ 0 ∷ 127 ∷ 1 ∷ 2 ∷ 4 ∷ 4 ∷ 8 ∷ 16 ∷ 16 ∷ 32 ∷ 64 ∷ 127 ∷ 0 ∷ 0 ∷ 0 ∷ [])
    ∷ (0 ∷ 0 ∷ 28 ∷ 16 ∷ 16 ∷ 16 ∷ 16 ∷ 16 ∷ 16 ∷ 16 ∷ 16 ∷ 16 ∷ 16 ∷ 16 ∷ 28 ∷ 0 ∷ [])
    ∷ (0 ∷ 0 ∷ 64 ∷ 32 ∷ 32 ∷ 16 ∷ 16 ∷ 8 ∷ 8 ∷ 4 ∷ 4 ∷ 2 ∷ 2 ∷ 1 ∷ 0 ∷ 0 ∷ [])
    ∷ (0 ∷ 0 ∷ 56 ∷ 8 ∷ 8 ∷ 8 ∷ 8 ∷ 8 ∷ 8 ∷ 8 ∷ 8 ∷ 8 ∷ 8 ∷ 8 ∷ 56 ∷ 0 ∷ [])
    ∷ (0 ∷ 0 ∷ 12 ∷ 30 ∷ 51 ∷ 97 ∷ 0 ∷ 0 ∷ 0 ∷ 0 ∷ 0 ∷ 0 ∷ 0 ∷ 0 ∷ 0 ∷ 0 ∷ [])
    ∷ (0 ∷ 0 ∷ 0 ∷ 0 ∷ 0 ∷ 0 ∷ 0 ∷ 0 ∷ 0 ∷ 0 ∷ 0 ∷ 0 ∷ 0 ∷ 0 ∷ 0 ∷ 0 ∷ [])
    ∷ (0 ∷ 48 ∷ 24 ∷ 12 ∷ 0 ∷ 0 ∷ 0 ∷ 0 ∷ 0 ∷ 0 ∷ 0 ∷ 0 ∷ 0 ∷ 0 ∷ 0 ∷ 0 ∷ [])
    ∷ (0 ∷ 0 ∷ 0 ∷ 0 ∷ 0 ∷ 30 ∷ 33 ∷ 1 ∷ 63 ∷ 97 ∷ 65 ∷ 67 ∷ 61 ∷ 0 ∷ 0 ∷ 0 ∷ [])
    ∷ (0 ∷ 0 ∷ 64 ∷ 64 ∷ 64 ∷ 92 ∷ 98 ∷ 65 ∷ 65 ∷ 65 ∷ 65 ∷ 98 ∷ 92 ∷ 0 ∷ 0 ∷ 0 ∷ [])
    ∷ (0 ∷ 0 ∷ 0 ∷ 0 ∷ 0 ∷ 28 ∷ 34 ∷ 64 ∷ 64 ∷ 64 ∷ 64 ∷ 34 ∷ 28 ∷ 0 ∷ 0 ∷ 0 ∷ [])
    ∷ (0 ∷ 0 ∷ 1 ∷ 1 ∷ 1 ∷ 29 ∷ 35 ∷ 65 ∷ 65 ∷ 65 ∷ 65 ∷ 35 ∷ 29 ∷ 0 ∷ 0 ∷ 0 ∷ [])
    ∷ (0 ∷ 0 ∷ 0 ∷ 0 ∷ 0 ∷ 28 ∷ 34 ∷ 65 ∷ 65 ∷ 127 ∷ 64 ∷ 33 ∷ 30 ∷ 0 ∷ 0 ∷ 0 ∷ [])
    ∷ (0 ∷ 0 ∷ 7 ∷ 8 ∷ 8 ∷ 63 ∷ 8 ∷ 8 ∷ 8 ∷ 8 ∷ 8 ∷ 8 ∷ 8 ∷ 0 ∷ 0 ∷ 0 ∷ [])
    ∷ (0 ∷ 0 ∷ 0 ∷ 0 ∷ 0 ∷ 29 ∷ 35 ∷ 65 ∷ 65 ∷ 65 ∷ 65 ∷ 35 ∷ 29 ∷ 1 ∷ 35 ∷ 30 ∷ [])
    ∷ (0 ∷ 0 ∷ 64 ∷ 64 ∷ 64 ∷ 94 ∷ 99 ∷ 65 ∷ 65 ∷ 65 ∷ 65 ∷ 65 ∷ 65 ∷ 0 ∷ 0 ∷ 0 ∷ [])
    ∷ (0 ∷ 0 ∷ 8 ∷ 8 ∷ 0 ∷ 56 ∷ 8 ∷ 8 ∷ 8 ∷ 8 ∷ 8 ∷ 8 ∷ 127 ∷ 0 ∷ 0 ∷ 0 ∷ [])
    ∷ (0 ∷ 0 ∷ 8 ∷ 8 ∷ 0 ∷ 56 ∷ 8 ∷ 8 ∷ 8 ∷ 8 ∷ 8 ∷ 8 ∷ 8 ∷ 8 ∷ 8 ∷ 112 ∷ [])
    ∷ (0 ∷ 0 ∷ 64 ∷ 64 ∷ 64 ∷ 66 ∷ 76 ∷ 80 ∷ 112 ∷ 72 ∷ 68 ∷ 66 ∷ 65 ∷ 0 ∷ 0 ∷ 0 ∷ [])
    ∷ (0 ∷ 0 ∷ 240 ∷ 16 ∷ 16 ∷ 16 ∷ 16 ∷ 16 ∷ 16 ∷ 16 ∷ 16 ∷ 16 ∷ 14 ∷ 0 ∷ 0 ∷ 0 ∷ [])
    ∷ (0 ∷ 0 ∷ 0 ∷ 0 ∷ 0 ∷ 126 ∷ 73 ∷ 73 ∷ 73 ∷ 73 ∷ 73 ∷ 73 ∷ 73 ∷ 0 ∷ 0 ∷ 0 ∷ [])
    ∷ (0 ∷ 0 ∷ 0 ∷ 0 ∷ 0 ∷ 94 ∷ 99 ∷ 65 ∷ 65 ∷ 65 ∷ 65 ∷ 65 ∷ 65 ∷ 0 ∷ 0 ∷ 0 ∷ [])
    ∷ (0 ∷ 0 ∷ 0 ∷ 0 ∷ 0 ∷ 28 ∷ 34 ∷ 65 ∷ 65 ∷ 65 ∷ 65 ∷ 34 ∷ 28 ∷ 0 ∷ 0 ∷ 0 ∷ [])
    ∷ (0 ∷ 0 ∷ 0 ∷ 0 ∷ 0 ∷ 92 ∷ 98 ∷ 65 ∷ 65 ∷ 65 ∷ 65 ∷ 98 ∷ 92 ∷ 64 ∷ 64 ∷ 64 ∷ [])
    ∷ (0 ∷ 0 ∷ 0 ∷ 0 ∷ 0 ∷ 29 ∷ 35 ∷ 65 ∷ 65 ∷ 65 ∷ 65 ∷ 35 ∷ 29 ∷ 1 ∷ 1 ∷ 1 ∷ [])
    ∷ (0 ∷ 0 ∷ 0 ∷ 0 ∷ 0 ∷ 23 ∷ 24 ∷ 16 ∷ 16 ∷ 16 ∷ 16 ∷ 16 ∷ 16 ∷ 0 ∷ 0 ∷ 0 ∷ [])
    ∷ (0 ∷ 0 ∷ 0 ∷ 0 ∷ 0 ∷ 62 ∷ 65 ∷ 64 ∷ 120 ∷ 7 ∷ 1 ∷ 65 ∷ 62 ∷ 0 ∷ 0 ∷ 0 ∷ [])
    ∷ (0 ∷ 0 ∷ 0 ∷ 16 ∷ 16 ∷ 126 ∷ 16 ∷ 16 ∷ 16 ∷ 16 ∷ 16 ∷ 16 ∷ 14 ∷ 0 ∷ 0 ∷ 0 ∷ [])
    ∷ (0 ∷ 0 ∷ 0 ∷ 0 ∷ 0 ∷ 65 ∷ 65 ∷ 65 ∷ 65 ∷ 65 ∷ 65 ∷ 99 ∷ 61 ∷ 0 ∷ 0 ∷ 0 ∷ [])
    ∷ (0 ∷ 0 ∷ 0 ∷ 0 ∷ 0 ∷ 65 ∷ 34 ∷ 34 ∷ 34 ∷ 20 ∷ 20 ∷ 20 ∷ 8 ∷ 0 ∷ 0 ∷ 0 ∷ [])
    ∷ (0 ∷ 0 ∷ 0 ∷ 0 ∷ 0 ∷ 128 ∷ 128 ∷ 73 ∷ 73 ∷ 85 ∷ 85 ∷ 34 ∷ 34 ∷ 0 ∷ 0 ∷ 0 ∷ [])
    ∷ (0 ∷ 0 ∷ 0 ∷ 0 ∷ 0 ∷ 99 ∷ 34 ∷ 20 ∷ 8 ∷ 8 ∷ 20 ∷ 34 ∷ 99 ∷ 0 ∷ 0 ∷ 0 ∷ [])
    ∷ (0 ∷ 0 ∷ 0 ∷ 0 ∷ 0 ∷ 65 ∷ 34 ∷ 34 ∷ 34 ∷ 20 ∷ 20 ∷ 12 ∷ 8 ∷ 8 ∷ 8 ∷ 48 ∷ [])
    ∷ (0 ∷ 0 ∷ 0 ∷ 0 ∷ 0 ∷ 127 ∷ 1 ∷ 2 ∷ 4 ∷ 24 ∷ 32 ∷ 64 ∷ 127 ∷ 0 ∷ 0 ∷ 0 ∷ [])
    ∷ (0 ∷ 0 ∷ 6 ∷ 8 ∷ 8 ∷ 8 ∷ 8 ∷ 8 ∷ 48 ∷ 8 ∷ 8 ∷ 8 ∷ 8 ∷ 8 ∷ 8 ∷ 6 ∷ [])
    ∷ (0 ∷ 0 ∷ 8 ∷ 8 ∷ 8 ∷ 8 ∷ 8 ∷ 8 ∷ 8 ∷ 8 ∷ 8 ∷ 8 ∷ 8 ∷ 8 ∷ 8 ∷ 8 ∷ [])
    ∷ (0 ∷ 0 ∷ 48 ∷ 8 ∷ 8 ∷ 8 ∷ 8 ∷ 8 ∷ 6 ∷ 8 ∷ 8 ∷ 8 ∷ 8 ∷ 8 ∷ 8 ∷ 48 ∷ [])
    ∷ (0 ∷ 0 ∷ 0 ∷ 0 ∷ 0 ∷ 0 ∷ 0 ∷ 56 ∷ 71 ∷ 0 ∷ 0 ∷ 0 ∷ 0 ∷ 0 ∷ 0 ∷ 0 ∷ [])
    ∷ []
