-- ===== src/Terminal/Tests.antt =====
-- The terminal at concrete inputs.
use first_os_build.Prelude.{◌+◌, ◌*◌, ◌≡◌, refl, true, false, none, some, [], ◌∷◌, arith, Returns}
use first_os_build.Terminal.{KernelState, make_vgaentry, terminal_write, terminal_write_char}
use first_os_build.Terminal.Entries.{make_vgaentry-ascii}
use first_os_build.Terminal.Refine.{Shows, Settled, write_char_refines}
use first_os_build.Terminal.Texts.{write_refines}
use first_os_build.Terminal.View
use first_os_build.Terminal.View.{View}

abbrev pub page : View
page = record { row = 24; column = 79; cells = λ i. i }

-- The cursor stands in the last cell.
abbrev pub state : KernelState
state = record {
  terminal_row = 24;
  terminal_column = 79;
  terminal_color = 7;
  terminal_buffer = some (λ i. i);
  is_initialized = true;
  total_memory = 0;
  free_memory = 0;
  ports = [];
}

-- As the kernel is loaded.
abbrev pub zeroed : KernelState
zeroed = record {
  terminal_row = 0;
  terminal_column = 0;
  terminal_color = 0;
  terminal_buffer = none;
  is_initialized = false;
  total_memory = 0;
  free_memory = 0;
  ports = [];
}

pub state-Shows : Shows 7 page state
state-Shows = record {
  mapped = refl;
  row = refl;
  column = refl;
  painted = refl;
  row_in = omega arith;
  column_in = omega arith;
}

write_char_refines_example :
    Returns (Settled 7 (View.type_char 7 b'A' page)) (terminal_write_char b'A' state)
write_char_refines_example = write_char_refines b'A' state-Shows

write_refines_example :
    Returns
      (Shows 7 (View.type_text 7 (b'A' ∷ b'\n' ∷ []) page))
      (terminal_write (b'A' ∷ b'\n' ∷ b'B' ∷ []) 2 state)
write_refines_example = write_refines (b'A' ∷ b'\n' ∷ []) (b'B' ∷ []) state-Shows

make_vgaentry-ascii_example : make_vgaentry b'A' 7 ≡ b'A' + 7 * 256
make_vgaentry-ascii_example = make_vgaentry-ascii b'A' 7 (omega arith) (omega arith)
