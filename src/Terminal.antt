-- ===== src/Terminal.antt =====
-- kernel/kernel.cpp and kernel/kernel.h: the VGA text terminal. Video memory is a function from the
-- index of a cell to its 16 bits; an access past its 25 * 80 cells or through a null
-- `terminal_buffer` is the `none` of every operation here. `ports` is the trace of `outb`.
pub mod Tests
pub mod Keeps
pub mod Loops
pub mod Entries
pub mod Refine
pub mod Texts
pub mod View
use first_os_build.Prelude.{
  ℕ, zero, suc, ◌+◌, ◌-◌, ◌*◌, ◌/◌, ◌%◌, ◌^◌, bit_or, Bool, true, Option, none, some, List, [], ◌∷◌,
  Bytes, ltb, ◌==◌, if◌then◌else◌, guard, ◌>>=◌, ◌>>◌, get_elem?,
}
use first_os_build.Ports.{Trace}

abbrev pub vga_width : ℕ
vga_width = 80

abbrev pub vga_height : ℕ
vga_height = 25

-- `enum vga_color`, those that the kernel uses
abbrev pub vga_color_black : ℕ
vga_color_black = 0

abbrev pub vga_color_red : ℕ
vga_color_red = 4

abbrev pub vga_color_light_grey : ℕ
vga_color_light_grey = 7

abbrev pub Screen : Type 0
Screen = ℕ → ℕ

pub record KernelState : Type 0 where
  pub terminal_row : ℕ
  pub terminal_column : ℕ
  pub terminal_color : ℕ
  pub terminal_buffer : Option Screen
  pub is_initialized : Bool
  pub total_memory : ℕ
  pub free_memory : ℕ
  pub ports : Trace

-- `fg | bg << 4`, as a `uint8_t`
unfoldable pub make_color : ℕ → ℕ → ℕ
make_color fg bg = bit_or fg (bg * 16) % 256

-- `char` is signed: a byte from 0x80 on is extended by ones.
unfoldable pub make_vgaentry : ℕ → ℕ → ℕ
make_vgaentry c color = bit_or (if ltb c 128 then c else c + 0xFF00) (color * 256) % 2 ^ 16

abbrev pub update : Screen → ℕ → ℕ → Screen
update f i v j = if j == i then v else f j

-- `kernel_state.terminal_buffer[index] = v`
unfoldable pub write_cell : ℕ → ℕ → KernelState → Option KernelState
write_cell index v s = do
  f ← s.terminal_buffer
  guard (ltb index (vga_height * vga_width))
  some (record s { terminal_buffer = some (update f index v) })

unfoldable pub read_cell : ℕ → KernelState → Option ℕ
read_cell index s = do
  f ← s.terminal_buffer
  guard (ltb index (vga_height * vga_width))
  some (f index)

-- `for (k = i; k < i + n; k++) s = body k s`
unfoldable pub for_range {ℓ} : {S : Type ℓ} → ℕ → ℕ → (ℕ → S → Option S) → S → Option S
for_range zero i body s = some s
for_range (suc n) i body s = body i s >>= for_range n (i + 1) body

unfoldable pub clear_cell : ℕ → ℕ → KernelState → Option KernelState
clear_cell y x s = write_cell (y * vga_width + x) (make_vgaentry b' ' s.terminal_color) s

unfoldable pub terminal_clear : KernelState → Option KernelState
terminal_clear = for_range vga_height 0 (λ y. for_range vga_width 0 (clear_cell y))

unfoldable pub outb : ℕ → ℕ → KernelState → KernelState
outb port v s = record s { ports = (port, v) ∷ s.ports }

unfoldable pub terminal_movecursor : ℕ → ℕ → KernelState → KernelState
unfolding outb
terminal_movecursor x y s =
    let pos = (y * vga_width + x) % 2 ^ 16 in
    outb 0x3D5 (pos % 256) (outb 0x3D4 15 (outb 0x3D5 (pos / 256) (outb 0x3D4 14 s)))

-- The cells that stand at VGA_MEMORY, 0xB8000, are an argument.
unfoldable pub terminal_init : Screen → KernelState → Option KernelState
terminal_init vga_memory s = terminal_clear (record s {
  terminal_row = 0;
  terminal_column = 0;
  terminal_color = make_color vga_color_light_grey vga_color_black;
  terminal_buffer = some vga_memory;
  is_initialized = true;
})

unfoldable pub terminal_set_color : ℕ → ℕ → KernelState → KernelState
terminal_set_color fg bg s = record s { terminal_color = make_color fg bg }

-- one cell of "Scroll up"
unfoldable pub scroll_cell : ℕ → ℕ → KernelState → Option KernelState
scroll_cell y x s =
    read_cell (y * vga_width + x) s >>= λ v. write_cell ((y - 1) * vga_width + x) v s

-- "Scroll up", then "Clear last line"
unfoldable pub scroll : KernelState → Option KernelState
scroll s = do
  s ← for_range (vga_height - 1) 1 (λ y. for_range vga_width 0 (scroll_cell y)) s
  let s' = record s { terminal_row = s.terminal_row - 1 }
  for_range vga_width 0 (clear_cell s'.terminal_row) s'

unfoldable pub terminal_new_line : KernelState → Option KernelState
terminal_new_line s =
    let s' = record s { terminal_column = 0; terminal_row = (s.terminal_row + 1) % 2 ^ 32 } in
    do
      s'' ← if s'.terminal_row == vga_height then scroll s' else some s'
      some (terminal_movecursor s''.terminal_column s''.terminal_row s'')

unfoldable pub terminal_write_char : ℕ → KernelState → Option KernelState
terminal_write_char c s = if c == b'\n' then terminal_new_line s else do
  s ←
      write_cell (s.terminal_row * vga_width + s.terminal_column) (make_vgaentry c s.terminal_color)
        s
  let s' = record s { terminal_column = (s.terminal_column + 1) % 2 ^ 32 }
  s'' ← if s'.terminal_column == vga_width then terminal_new_line s' else some s'
  some (terminal_movecursor s''.terminal_column s''.terminal_row s'')

-- The list is `data[i..]`; a read past its end is a fault.
unfoldable pub terminal_write : Bytes → ℕ → KernelState → Option KernelState
terminal_write cs zero s = some s
terminal_write [] (suc n) s = none
terminal_write (c ∷ cs) (suc n) s = terminal_write_char c s >>= terminal_write cs n

unfoldable pub terminal_write_string : Bytes → KernelState → Option KernelState
terminal_write_string [] s = none
terminal_write_string (c ∷ cs) s =
    let rest = terminal_write_char c s >>= terminal_write_string cs in
    if c == 0 then some s else rest

unfoldable pub terminal_backspace : KernelState → Option KernelState
terminal_backspace s =
    if ltb 0 s.terminal_column
    then (do
      let s' = record s { terminal_column = s.terminal_column - 1 }
      s'' ←
          write_cell (s'.terminal_row * vga_width + s'.terminal_column)
            (make_vgaentry b' ' s'.terminal_color) s'
      some (terminal_movecursor s''.terminal_column s''.terminal_row s''))
    else some s

-- rows and columns
unfoldable pub terminal_get_size : ℕ × ℕ
terminal_get_size = (vga_height, vga_width)
