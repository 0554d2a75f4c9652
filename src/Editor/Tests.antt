-- ===== src/Editor/Tests.antt =====
-- The editor at concrete inputs.
use first_os_build.Prelude.{
  ℕ, replicate, length, ◌+◌, ◌≡◌, refl, true, false, none, some, List, [], ◌∷◌, ◌++◌, arith, inl,
  inr, ◌-◌, ◌==◌, if◌then◌else◌, Returns,
}
use first_os_build.Compiler.{bytes_at}
use first_os_build.Compiler.Tests
use first_os_build.Compiler.Tests.{whole_source}
use first_os_build.Editor.{
  Editor, editor_insert_char, editor_delete_char, editor_init, editor_refresh_screen, Desk,
}
use first_os_build.Editor.Buffer.{Holds, Edits, Grown}
use first_os_build.Editor.Delete.{delete_char-Edits}
use first_os_build.Editor.Insert.{insert_char-Holds}
use first_os_build.Editor.Page.{page, blanked}
use first_os_build.Editor.Refresh.{refresh_refines}
use first_os_build.Editor.Text
use first_os_build.Editor.Text.{Text}
use first_os_build.Keyboard.{Keyboard}
use first_os_build.Memory.{
  Ptr, Memory, memory_init, null, header_size, heap_start_address, heap_size,
}
use first_os_build.Memory.Blocks.{Block}
use first_os_build.Memory.Chain.{link, end}
use first_os_build.Memory.Free.{whole, memory_init-IsHeap}
use first_os_build.Terminal.Refine.{Shows}
use first_os_build.Terminal.View
use first_os_build.Terminal.View.{View}
use first_os_build.Terminal.{KernelState, terminal_movecursor, terminal_write_string}

abbrev fresh_memory : Memory
fresh_memory = memory_init (record { heap_start = 0; header = λ p. none; byte = λ p. 0 })

-- The editor as `editor_init` leaves it.
abbrev fresh : Editor
fresh = record {
  buffer = 0;
  buffer_size = 0;
  cursor_x = 0;
  cursor_y = 0;
  filename = none;
  screen_rows = 24;
  screen_cols = 80;
  is_modified = false;
}

initial : (e : Editor) → editor_init e ≡ fresh
unfolding editor_init first_os_build.Terminal.terminal_get_size
initial e = refl

fresh-Holds : Holds fresh fresh_memory (whole ∷ []) (heap_start_address + heap_size) []
unfolding bytes_at
fresh-Holds = record {
  heap = memory_init-IsHeap (record { heap_start = 0; header = λ p. none; byte = λ p. 0 });
  place = inl (refl, refl);
  count = refl;
  bytes = refl;
}

insert_char-Holds_example :
    Returns
      (λ (e', m'). (bs' : List Block) × (end' : ℕ) × Holds e' m' bs' end' ([] ++ (b'a' ∷ [])))
      (editor_insert_char 2 b'a' fresh fresh_memory)
insert_char-Holds_example =
    insert_char-Holds 2 b'a' (whole ∷ []) [] fresh-Holds (omega arith) (omega arith)

abbrev screen : KernelState
screen = record {
  terminal_row = 0;
  terminal_column = 0;
  terminal_color = 7;
  terminal_buffer = some (λ i. 0);
  is_initialized = true;
  total_memory = 0;
  free_memory = 0;
  ports = [];
}

abbrev screen_view : View
screen_view = record { row = 0; column = 0; cells = λ i. 0 }

screen-Shows : Shows 7 screen_view screen
screen-Shows = record {
  mapped = refl;
  row = refl;
  column = refl;
  painted = refl;
  row_in = omega arith;
  column_in = omega arith;
}

refresh_refines_example :
    Returns
      (Shows 7 (View.type_text 7 (page (fresh.buffer == null) []) (blanked 7 screen_view)))
      (editor_refresh_screen fresh fresh_memory screen)
unfolding bytes_at
refresh_refines_example = refresh_refines fresh fresh_memory [] refl refl refl screen-Shows

-- A heap of one block in use, whose space starts with three letters, and the editor on them.
abbrev busy_block : Block
busy_block = record { address = heap_start_address; size = heap_size - header_size; free = false }

abbrev letter : Ptr → ℕ
letter p =
    if p == heap_start_address + header_size
    then b'a'
    else if p == heap_start_address + header_size + 1
    then b'b'
    else b'c'

abbrev busy_memory : Memory
busy_memory = record {
  heap_start = heap_start_address;
  header = λ p.
      if p == heap_start_address
      then some (record { size = heap_size - header_size; next = null; is_free = false })
      else none;
  byte = letter;
}

abbrev busy : Editor
busy = record fresh { buffer = heap_start_address + header_size; buffer_size = 3; cursor_x = 2 }

abbrev abc : Text
abc = record { chars = b'a' ∷ b'b' ∷ b'c' ∷ []; column = 2 }

busy-Edits : Edits busy busy_memory (busy_block ∷ []) (heap_start_address + heap_size) abc
unfolding bytes_at
busy-Edits = record {
  holds = record {
    heap = record { starts = refl; chain = link (omega arith) refl refl end; laid = (refl, refl) };
    place = inr (busy_block, inl refl, refl, refl, omega arith);
    count = refl;
    bytes = refl;
  };
  column = refl;
  within = omega arith;
  rows = refl;
  cols = refl;
}

delete_char-Edits_example :
    Returns
      (λ (e', m').
        Grown 1
          (heap_start_address + heap_size + 3 + 14)
          e'
          m'
          (Text.erase abc)
          (busy.buffer == null))
      (editor_delete_char 2 busy busy_memory)
delete_char-Edits_example =
    delete_char-Edits 2 (busy_block ∷ []) abc busy-Edits (omega arith) (omega arith)

-- A desk with the program of Compiler/Tests in its text.
abbrev keyboard : Keyboard
keyboard = record {
  keyboard_buffer = replicate 256 0;
  buffer_start = 0;
  buffer_end = 0;
  shift_pressed = false;
  caps_lock = false;
}

abbrev desk : Desk
desk = record {
  editor = record fresh {
    buffer = heap_start_address + header_size;
    buffer_size = length whole_source;
  };
  memory = Tests.memory;
  kernel = screen;
  keyboard = keyboard;
}
