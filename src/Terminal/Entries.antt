-- ===== src/Terminal/Entries.antt =====
-- kernel/kernel.cpp: the 16 bits of a cell and the 8 bits of a colour.
use first_os_build.Prelude.{
  ℕ, ◌+◌, ◌*◌, ◌/◌, ◌≤◌, ◌<◌, ◌≡◌, refl, true, arith, ltb, ◌||◌, ◌==◌, every_below, every_below-at,
}
use first_os_build.Terminal.{make_vgaentry, make_color}

ascii_table :
    every_below 256 (λ color. every_below 128 (λ c. make_vgaentry c color == c + color * 256))
    ≡ true
unfolding every_below make_vgaentry
ascii_table = refl

high_table :
    every_below 256
      (λ color. every_below 256 (λ c. ltb c 128 || make_vgaentry c color / 256 == 255))
    ≡ true
unfolding every_below make_vgaentry
high_table = refl

-- A cell holds an ASCII character in its low byte and the colour in its high byte.
pub make_vgaentry-ascii :
    (c color : ℕ) → c < 128 → color < 256 → make_vgaentry c color ≡ c + color * 256
make_vgaentry-ascii c color hc hcol =
    ground (arith, every_below-at 128 _ (every_below-at 256 _ ascii_table color hcol) c hc)

-- For a byte from 0x80 on and a colour of a byte, the high byte of the cell is 255: the colour is
-- lost.
pub make_vgaentry-high :
    (c color : ℕ) → 128 ≤ c → c < 256 → color < 256 → make_vgaentry c color / 256 ≡ 255
make_vgaentry-high c color lo hc hcol =
    ground (arith, every_below-at 256 _ (every_below-at 256 _ high_table color hcol) c hc)

color_table : every_below 16 (λ fg. every_below 16 (λ bg. make_color fg bg == fg + bg * 16)) ≡ true
unfolding every_below make_color
color_table = refl

-- The two colours of `enum vga_color` share a byte.
pub make_color_lem : (fg bg : ℕ) → fg < 16 → bg < 16 → make_color fg bg ≡ fg + bg * 16
make_color_lem fg bg hf hb =
    ground (arith, every_below-at 16 _ (every_below-at 16 _ color_table fg hf) bg hb)
