-- ===== src/Terminal/Refine.antt =====
-- kernel/kernel.cpp: the terminal's operations against the page of Terminal/View.antt.
use first_os_build.Prelude.{
  ℕ, ◌+◌, ◌*◌, ◌/◌, ◌%◌, ◌<◌, ◌≡◌, ◌≢◌, refl, true, false, fun_ext, some, List, ◌∷◌, arith, ◌==◌,
  Returns, returns, Bool-cases, inl, inr, sym, subst,
}
use first_os_build.Prelude.Maybe
use first_os_build.Terminal.{
  Screen, KernelState, make_vgaentry, update, write_cell, scroll, terminal_movecursor,
  terminal_new_line, terminal_write_char,
}
use first_os_build.Terminal.Loops.{blank, show, write_cell-show, scrolled, scroll-show}
use first_os_build.Terminal.View
use first_os_build.Terminal.View.{View}

-- The state shows the page `v`, in the colour `color`, with its cursor on the page.
pub record Shows (color : ℕ) (v : View) (s : KernelState) : Type 0 where
  pub mapped : s.terminal_buffer ≡ some v.cells
  pub row : s.terminal_row ≡ v.row
  pub column : s.terminal_column ≡ v.column
  pub painted : s.terminal_color ≡ color
  pub row_in : v.row < 25
  pub column_in : v.column < 80

-- The cursor registers were last written with the cell of the cursor.
abbrev pub Synced : KernelState → Type 0
Synced s =
    (rest : List (ℕ × ℕ)) × (hi : ℕ) × (lo : ℕ) × (s.ports
      ≡ (0x3D5, lo) ∷ (0x3D4, 15) ∷ (0x3D5, hi) ∷ (0x3D4, 14) ∷ rest)
    × (hi * 256 + lo ≡ s.terminal_row * 80 + s.terminal_column)

abbrev pub moved : KernelState → KernelState
moved s = terminal_movecursor s.terminal_column s.terminal_row s

pub moved-Shows :
    {color : ℕ} {v : View} {s : KernelState} → Shows color v s → Shows color v (moved s)
unfolding terminal_movecursor
moved-Shows h = ground arith

moved-Synced : {color : ℕ} {v : View} {s : KernelState} → Shows color v s → Synced (moved s)
unfolding terminal_movecursor
moved-Synced {s} h = (
  s.ports,
  (s.terminal_row * 80 + s.terminal_column) / 256,
  (s.terminal_row * 80 + s.terminal_column) % 256,
  ground arith,
  omega arith,
)

abbrev pub Settled : ℕ → View → KernelState → Type 0
Settled color v s = Shows color v s × Synced s

moved-Settled :
    {color : ℕ} {v : View} {s : KernelState} → Shows color v s → Settled color v (moved s)
moved-Settled h = (moved-Shows h, moved-Synced h)

pub show_mapped : (s : KernelState) (f : Screen) → s.terminal_buffer ≡ some f → s ≡ show s f
show_mapped s f e = λ i. record s { terminal_buffer = e i }

scrolled-line_up : (f : Screen) (b : ℕ) → scrolled f b ≡ View.line_up b f
unfolding View.line_up
scrolled-line_up f b = fun_ext λ i. ground arith

scroll-line_up :
    (s : KernelState) (f : Screen)
    → s.terminal_row ≡ 25
    → s.terminal_buffer ≡ some f
    → scroll s ≡ some (show (record s { terminal_row = 24 }) (View.line_up (blank s) f))
scroll-line_up s f h e =
    subst (λ t. scroll t ≡ some (show (record s { terminal_row = 24 }) (View.line_up (blank s) f)))
      (sym (show_mapped s f e)) (rw (← scrolled-line_up f (blank s)) (scroll-show s f h))

-- As `Shows`, wherever the column stands.
record Lines (color : ℕ) (v : View) (s : KernelState) : Type 0 where
  mapped : s.terminal_buffer ≡ some v.cells
  row : s.terminal_row ≡ v.row
  painted : s.terminal_color ≡ color
  row_in : v.row < 25

Lines-new_line :
    {color : ℕ} {v : View} {s : KernelState}
    → Lines color v s
    → Returns (Settled color (View.new_line color v)) (terminal_new_line s)
unfolding terminal_new_line View.new_line
Lines-new_line {color} {v} {s} h = elim (Bool-cases (v.row == 24)) [
  | inl last ↦
      let test : ((s.terminal_row + 1) % 4294967296 == 25) ≡ true = ground arith in
      let down = record s {
        terminal_row = (s.terminal_row + 1) % 4294967296;
        terminal_column = 0;
      } in
      rw (test, last, scroll-line_up down v.cells (ground arith) h.mapped)
        (returns (
          moved-Settled (record {
            mapped = ground arith;
            row = ground arith;
            column = refl;
            painted = h.painted;
            row_in = h.row_in;
            column_in = omega arith;
          })))
  | inr more ↦
      let test : ((s.terminal_row + 1) % 4294967296 == 25) ≡ false = ground arith in
      rw (test, more) (returns (moved-Settled (ground arith)))
]

-- From a page, a new line always ends, with the page of `View.new_line`: at the last row every line
-- moves up by one and the last is blank. The cursor registers follow.
pub new_line_refines :
    {color : ℕ} {v : View} {s : KernelState}
    → Shows color v s
    → Returns (Settled color (View.new_line color v)) (terminal_new_line s)
new_line_refines h = Lines-new_line (ground arith)

pub write_cell-mapped :
    (i x : ℕ) (s : KernelState) (f : Screen)
    → s.terminal_buffer ≡ some f
    → i < 2000
    → write_cell i x s ≡ some (show s (update f i x))
write_cell-mapped i x s f e h =
    subst (λ t. write_cell i x t ≡ some (show s (update f i x))) (sym (show_mapped s f e))
      (write_cell-show i x s f h)

newline_char :
    {color : ℕ} {v : View} {s : KernelState} (c : ℕ)
    → Shows color v s
    → c ≡ 10
    → Returns (Settled color (View.new_line color v)) (terminal_write_char c s)
unfolding terminal_write_char
newline_char c h e = rw e (new_line_refines h)

put_refines :
    {color : ℕ} {v : View} {s : KernelState} (c : ℕ)
    → Shows color v s
    → c ≢ 10
    → Returns (Settled color (View.put color c v)) (terminal_write_char c s)
unfolding terminal_write_char View.put
put_refines {color} {v} {s} c h ne =
    let plain : (c == 10) ≡ false = ground arith in
    let here : s.terminal_row * 80 + s.terminal_column ≡ v.row * 80 + v.column = ground arith in
    rw
      (
        plain,
        write_cell-mapped (s.terminal_row * 80 + s.terminal_column)
            (make_vgaentry c s.terminal_color) s v.cells h.mapped (omega arith),
      )
      (elim (Bool-cases (v.column == 79)) [
        | inl last ↦
            let test : ((s.terminal_column + 1) % 4294967296 == 80) ≡ true = ground arith in
            rw (test, last)
              (Maybe.bind
                (Lines-new_line (record {
                  mapped = λ i. some (update v.cells (here i) (make_vgaentry c (h.painted i)));
                  row = h.row;
                  painted = h.painted;
                  row_in = h.row_in;
                }))
                λ t settled. returns (moved-Settled settled.0))
        | inr more ↦
            let test : ((s.terminal_column + 1) % 4294967296 == 80) ≡ false = ground arith in
            rw (test, more)
              (returns (
                moved-Settled (record {
                  mapped = λ i. some (update v.cells (here i) (make_vgaentry c (h.painted i)));
                  row = h.row;
                  column = ground arith;
                  painted = h.painted;
                  row_in = h.row_in;
                  column_in = ground arith;
                })))
      ])

-- From a page, writing a character always ends, with the page of `View.type_char`, and the cursor
-- registers follow.
pub write_char_refines :
    {color : ℕ} {v : View} {s : KernelState} (c : ℕ)
    → Shows color v s
    → Returns (Settled color (View.type_char color c v)) (terminal_write_char c s)
unfolding View.type_char
write_char_refines {color} {v} {s} c h = elim (Bool-cases (c == 10)) [
  | inl newline ↦ rw newline (newline_char c h (ground arith))
  | inr other ↦ rw other (put_refines c h (ground arith))
]
