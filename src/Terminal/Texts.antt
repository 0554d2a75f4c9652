-- ===== src/Terminal/Texts.antt =====
-- kernel/kernel.cpp: texts, clearing and the backspace, against the page of Terminal/View.antt.
use first_os_build.Prelude.{
  ℕ, ◌+◌, ◌-◌, ◌*◌, ◌≡◌, ◌≢◌, refl, true, false, ap, fun_ext, none, some, [], ◌∷◌, ◌++◌, arith, ltb,
  ◌==◌, if◌then◌else◌, ◌>>=◌, Returns, returns, Bytes, length, All, Bool-cases, inl, inr, sym,
  subst,
}
use first_os_build.Prelude.Maybe
use first_os_build.Terminal.{
  Screen, KernelState, make_color, make_vgaentry, update, write_cell, terminal_clear, terminal_init,
  terminal_write_char, terminal_write, terminal_write_string, terminal_backspace, for_range,
  clear_cell,
}
use first_os_build.Terminal.Loops.{fill, clear-show}
use first_os_build.Terminal.Refine.{
  Shows, write_char_refines, moved-Shows, show_mapped, write_cell-mapped,
}
use first_os_build.Terminal.View
use first_os_build.Terminal.View.{View}

-- No zero byte.
abbrev pub IsText : Bytes → Type 0
IsText = All (λ c. c ≢ 0)

pub type_text-append :
    (color : ℕ) (xs ys : Bytes) (v : View)
    → View.type_text color (xs ++ ys) v ≡ View.type_text color ys (View.type_text color xs v)
unfolding View.type_text
type_text-append color [] ys v = refl
type_text-append color (x ∷ xs) ys v = type_text-append color xs ys (View.type_char color x v)

-- From a page, `terminal_write` of the first `length cs` bytes of `cs ++ rest` always ends, with the
-- page of `View.type_text`.
pub write_refines :
    (cs rest : Bytes) {color : ℕ} {v : View} {s : KernelState}
    → Shows color v s
    → Returns (Shows color (View.type_text color cs v)) (terminal_write (cs ++ rest) (length cs) s)
unfolding terminal_write View.type_text
write_refines [] rest h = returns h
write_refines (c ∷ cs) rest h =
    Maybe.bind (write_char_refines c h) λ s settled. write_refines cs rest settled.0

-- A text that ends in a zero byte is written as its bytes are by `terminal_write`, whatever the state.
pub write_string-eq-write :
    (cs rest : Bytes) (s : KernelState)
    → IsText cs
    → terminal_write_string (cs ++ 0 ∷ rest) s ≡ terminal_write (cs ++ 0 ∷ rest) (length cs) s
unfolding terminal_write_string terminal_write
write_string-eq-write [] rest s t = refl
write_string-eq-write (c ∷ cs) rest s (ne, t) =
    let more : (c == 0) ≡ false = ground arith in
    rw more
      (ap (◌>>=◌ (terminal_write_char c s)) (fun_ext λ s'. write_string-eq-write cs rest s' t))

-- From a page, `terminal_write_string` of a text that ends in a zero byte always ends, with the
-- page of `View.type_text`.
pub write_string_refines :
    {color : ℕ} {v : View} {s : KernelState} (cs rest : Bytes)
    → IsText cs
    → Shows color v s
    → Returns (Shows color (View.type_text color cs v)) (terminal_write_string (cs ++ 0 ∷ rest) s)
write_string_refines {s} cs rest t h =
    rw (write_string-eq-write cs rest s t) (write_refines cs (0 ∷ rest) h)

-- Clearing blanks the page, and leaves the cursor.
pub clear_refines :
    {color : ℕ} {v : View} {s : KernelState}
    → Shows color v s
    → Returns
        (Shows color (record v { cells = fill v.cells 0 2000 (make_vgaentry b' ' color) }))
        (terminal_clear s)
clear_refines {color} {v} {s} h =
    subst
      (λ t.
        Returns (Shows color (record v { cells = fill v.cells 0 2000 (make_vgaentry b' ' color) }))
          (terminal_clear t))
      (sym (show_mapped s v.cells h.mapped))
      (rw (clear-show s v.cells) (
        returns (record {
          mapped = λ i. some (fill v.cells 0 2000 (make_vgaentry b' ' (h.painted i)));
          row = h.row;
          column = h.column;
          painted = h.painted;
          row_in = h.row_in;
          column_in = h.column_in;
        })))

-- After `terminal_init` the terminal shows a blank page, light grey on black, the cursor at its start.
pub init_refines :
    (vga : Screen) (s : KernelState)
    → Returns
        (Shows 7 (record { row = 0; column = 0; cells = fill vga 0 2000 (make_vgaentry b' ' 7) }))
        (terminal_init vga s)
unfolding terminal_init make_color
init_refines vga s =
    clear_refines {color = 7} {v = record { row = 0; column = 0; cells = vga }} (record {
      mapped = refl;
      row = refl;
      column = refl;
      painted = refl;
      row_in = omega arith;
      column_in = omega arith;
    })

-- The backspace takes the cursor back by one in its line and blanks that cell; in the first column it
-- does nothing.
pub backspace_refines :
    {color : ℕ} {v : View} {s : KernelState}
    → Shows color v s
    → Returns
        (Shows color (
          if ltb 0 v.column
          then record v {
            column = v.column - 1;
            cells = update v.cells (v.row * 80 + v.column - 1) (make_vgaentry b' ' color);
          }
          else v))
        (terminal_backspace s)
unfolding terminal_backspace
backspace_refines {color} {v} {s} h = elim (Bool-cases (ltb 0 v.column)) [
  | inl inside ↦
      let test : ltb 0 s.terminal_column ≡ true = ground arith in
      let back : s.terminal_row * 80 + (s.terminal_column - 1) ≡ v.row * 80 + v.column - 1 =
        ground arith in
      rw
        (
          test,
          inside,
          write_cell-mapped (s.terminal_row * 80 + (s.terminal_column - 1))
              (make_vgaentry b' ' s.terminal_color)
              (record s { terminal_column = s.terminal_column - 1 }) v.cells h.mapped (omega arith),
        )
        (returns (
          moved-Shows (record {
            mapped = λ i. some (update v.cells (back i) (make_vgaentry b' ' (h.painted i)));
            row = h.row;
            column = ground arith;
            painted = h.painted;
            row_in = h.row_in;
            column_in = ground arith;
          })))
  | inr first ↦
      let test : ltb 0 s.terminal_column ≡ false = ground arith in rw (test, first) (returns h)
]

-- Before the terminal is initialised `terminal_buffer` is null, and clearing or writing a character
-- (but a newline short of the last row) goes through the null pointer.
pub null_buffer :
    (s : KernelState) (c : ℕ)
    → s.terminal_buffer ≡ none
    → c ≢ b'\n'
    → (terminal_clear s ≡ none) × (terminal_write_char c s ≡ none)
unfolding terminal_clear for_range clear_cell terminal_write_char write_cell
null_buffer s c e ne =
    let plain : (c == 10) ≡ false = ground arith in (rw e refl, rw (plain, e) refl)
