-- ===== src/Main/Tests.antt =====
-- The kernel at concrete inputs.
use mathlib.Core.Option.{Option}
use first_os_build.Prelude.{
  ℕ, ◌+◌, ◌≡◌, refl, true, false, none, some, List, [], ◌∷◌, replicate, arith, Returns, ◌≤◌, All,
}
use first_os_build.Editor.Process.{Works, process_refines}
use first_os_build.Editor.{Editor, editor_init, editor_process_keypress}
use first_os_build.Editor.Session
use first_os_build.Editor.Session.{Session}
use first_os_build.Interrupts.{Interrupts, Stubs, empty_entry}
use first_os_build.Keyboard.{Keyboard}
use first_os_build.Main.{desk_of, Machine, main_loop, show_main_banner}
use first_os_build.Main.Loop.{AreBytes, main_loop_refines}
use first_os_build.Main.Start.{IsUnused, fresh_session, fresh-Works}
use first_os_build.Main.Banner.{start_text, main_banner_refines}
use first_os_build.Editor.Page.{blanked}
use first_os_build.Terminal.View
use first_os_build.Terminal.Refine.{Shows}
use first_os_build.Memory.{Ptr, Memory, memory_init, memory_get_total, memory_get_free}
use first_os_build.Ports.{Ports}
use first_os_build.Terminal.{Screen, KernelState}

abbrev pub zero_editor : Editor
zero_editor = record {
  buffer = 0;
  buffer_size = 0;
  cursor_x = 0;
  cursor_y = 0;
  filename = none;
  screen_rows = 0;
  screen_cols = 0;
  is_modified = false;
}

abbrev pub zero_memory : Memory
zero_memory = record { heap_start = 0; header = λ p. none; byte = λ p. 0 }

abbrev pub zero_keyboard : Keyboard
zero_keyboard = record {
  keyboard_buffer = replicate 256 0;
  buffer_start = 0;
  buffer_end = 0;
  shift_pressed = false;
  caps_lock = false;
}

abbrev pub vga : Screen
vga i = 0

abbrev blank_screen : KernelState
blank_screen = record {
  terminal_row = 0;
  terminal_column = 0;
  terminal_color = 7;
  terminal_buffer = some ((fresh_session vga).view.cells);
  is_initialized = true;
  total_memory = 0;
  free_memory = 0;
  ports = [];
}

abbrev zero_interrupts : Interrupts
zero_interrupts = record {
  idt = λ i. empty_entry;
  idt_limit = 0;
  idt_base = 0;
  tick = 0;
  keyboard = zero_keyboard;
  ports = [];
  loaded = false;
  enabled = false;
}

-- The globals as they are at the start, but for the terminal, and once they are initialised.
abbrev zero_machine : Machine
zero_machine = record {
  memory = zero_memory;
  kernel = blank_screen;
  files = record { files = []; num_files = 0 };
  interrupts = zero_interrupts;
  editor = zero_editor;
}

abbrev pub ready_machine : Machine
ready_machine = record zero_machine {
  memory = memory_init zero_memory;
  editor = editor_init zero_editor;
}

-- A controller that is ready for commands and has no byte; its states count the reads.
abbrev pub controller : Ports
controller = record { Dev = ℕ; inb = λ port d. (0, d + 1); outb = λ port v d. d }

abbrev AllStates : ℕ → Type 0
AllStates d = Unit

abbrev pub stubs : Stubs
stubs = record { isr0 = 0; isr1 = 0; irq0 = 0; irq1 = 0; table = 0 }

-- A processor that returns at once.
abbrev pub call : Ptr → Memory → Option Memory
call p m = some m

zero-IsUnused : IsUnused zero_keyboard
zero-IsUnused = record { storage = refl; start = refl; end = refl; shift = refl; caps = refl }

blank-Shows : Shows 7 (fresh_session vga).view blank_screen
blank-Shows = record {
  mapped = refl;
  row = refl;
  column = refl;
  painted = refl;
  row_in = omega arith;
  column_in = omega arith;
}

pub ready-Works :
    (rounds : ℕ) → rounds ≤ 20 → Works rounds 30 (desk_of ready_machine) (fresh_session vga)
ready-Works rounds few =
    fresh-Works rounds 30 vga zero_memory zero_editor zero_keyboard blank_screen zero-IsUnused
      blank-Shows (omega arith) (omega arith)

-- The counts as `kernel_init` stores them
abbrev counted_screen : KernelState
counted_screen = record blank_screen {
  total_memory = memory_get_total;
  free_memory = memory_get_free;
}

main_banner_refines_example :
    Returns
      (Shows 7 (View.type_text 7 start_text (blanked 7 (fresh_session vga).view)))
      (show_main_banner counted_screen)
main_banner_refines_example =
    main_banner_refines {v = (fresh_session vga).view} counted_screen
      (record {
        mapped = refl;
        row = refl;
        column = refl;
        painted = refl;
        row_in = omega arith;
        column_in = omega arith;
      })
      (refl, refl)

process_refines_example :
    Returns
      (λ (running, d'). (running ≡ true) × Works 4 30 d' (Session.round (fresh_session vga)))
      (editor_process_keypress call [] 30 (desk_of ready_machine))
process_refines_example =
    process_refines call [] 30 4 (desk_of ready_machine) (fresh_session vga)
      (ready-Works 5 (omega arith))

-- "h", "i" with shift, nothing, backspace
abbrev pub keys : List (List ℕ)
keys = (0x23 ∷ 0xA3 ∷ []) ∷ (0x2A ∷ 0x17 ∷ 0x97 ∷ 0xAA ∷ []) ∷ [] ∷ (0x0E ∷ []) ∷ []

keys-AreBytes : All AreBytes keys
keys-AreBytes = (
  (omega arith, (omega arith, tt)),
  ((omega arith, (omega arith, (omega arith, (omega arith, tt)))), (tt, ((omega arith, tt), tt))),
)

main_loop_refines_example :
    Returns
      (λ (running, a').
        (running ≡ true) × Works 3 30 (desk_of a') (Session.run keys (fresh_session vga)))
      (main_loop controller vga stubs call [] 30 keys ready_machine)
main_loop_refines_example =
    main_loop_refines controller vga stubs call [] 30 keys 3 ready_machine (fresh_session vga)
      keys-AreBytes (ready-Works 7 (omega arith))
