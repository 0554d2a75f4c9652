-- ===== src/Release/Tests.antt =====
-- The older kernel at concrete inputs.
use mathlib.Core.Option
use mathlib.Core.Option.{Option, some, none}
use first_os_build.Prelude.{◌≡◌, refl, false, [], replicate, arith, Returns, set}
use first_os_build.Editor
use first_os_build.Keyboard.{Keyboard, keyboard_getchar}
use first_os_build.Memory.{Ptr, Memory, memory_init}
use first_os_build.Release.Editor.{press}
use first_os_build.Release.Same.{forget_desk, forget_run, press-forget}
use first_os_build.Release.Start.{show_banner_refines, banner}
use first_os_build.Terminal.{KernelState}
use first_os_build.Terminal.Refine.{Shows}
use first_os_build.Terminal.View
use first_os_build.Terminal.View.{View}
use first_os_build.Release.Kernel.{show_banner}

abbrev zero_editor : Editor.Editor
zero_editor = record {
  buffer = 0;
  buffer_size = 0;
  cursor_x = 0;
  cursor_y = 0;
  filename = none;
  screen_rows = 24;
  screen_cols = 80;
  is_modified = false;
}

abbrev zero_memory : Memory
zero_memory = record { heap_start = 0; header = λ p. none; byte = λ p. 0 }

abbrev zero_keyboard : Keyboard
zero_keyboard = record {
  keyboard_buffer = replicate 256 0;
  buffer_start = 0;
  buffer_end = 0;
  shift_pressed = false;
  caps_lock = false;
}

-- The letter "a" is typed.
abbrev typed_keyboard : Keyboard
typed_keyboard = record zero_keyboard {
  keyboard_buffer = set (replicate 256 0) 0 b'a';
  buffer_end = 1;
}

abbrev zero_screen : KernelState
zero_screen = record {
  terminal_row = 0;
  terminal_column = 0;
  terminal_color = 0;
  terminal_buffer = none;
  is_initialized = false;
  total_memory = 0;
  free_memory = 0;
  ports = [];
}

abbrev desk : Editor.Desk
desk = record {
  editor = zero_editor;
  memory = memory_init zero_memory;
  kernel = record zero_screen { terminal_buffer = some (λ i. 0) };
  keyboard = typed_keyboard;
}

-- A processor that returns at once.
abbrev call : Ptr → Memory → Option Memory
call p m = some m

press-forget_example :
    Option.map (forget_run call [] 2 desk) (Editor.press call [] 2 b'a' desk)
    ≡ press 2 b'a' (forget_desk desk)
unfolding first_os_build.Keyboard.Layout.is_typable
press-forget_example = press-forget call [] 2 desk b'a' refl

abbrev screen : KernelState
screen = record zero_screen {
  terminal_row = 0;
  terminal_column = 0;
  terminal_color = 7;
  terminal_buffer = some (λ i. 0);
}

abbrev screen_view : View
screen_view = record { row = 0; column = 0; cells = λ i. 0 }

screen-Shows : Shows 7 screen_view screen
screen-Shows = record {
  mapped = refl;
  row = refl;
  column = refl;
  painted = refl;
  row_in = omega arith;
  column_in = omega arith;
}

show_banner_refines_example :
    Returns (Shows 7 (View.type_text 7 banner screen_view)) (show_banner screen)
show_banner_refines_example = show_banner_refines screen-Shows
