-- ===== src/Editor.antt =====
-- kernel/editor.cpp: the text buffer, which stands in the allocator's heap, and the screen.
pub mod Buffer
pub mod Compile
pub mod Delete
pub mod Insert
pub mod Keys
pub mod Process
pub mod Moments
pub mod Moved
pub mod Page
pub mod Refresh
pub mod Schedule
pub mod Session
pub mod Shown
pub mod Status
pub mod Text
mod Tests
use mathlib.Core.Option
use first_os_build.Prelude.{
  ℕ, zero, suc, ◌+◌, ◌-◌, ◌/◌, ◌%◌, ◌^◌, Bool, true, false, not, ◌&&◌, ◌||◌, Option, none, some, [],
  ◌∷◌, ◌++◌, Bytes, codes, ltb, leb, ◌==◌, if◌then◌else◌, is_none, ◌>>=◌, pos,
}
use first_os_build.CString.{strlen_at}
use first_os_build.Compiler.{CompileResult, compile_code, execute_binary, bytes_at}
use first_os_build.Keyboard.{Keyboard, keyboard_getchar}
use first_os_build.Memory.{Ptr, Memory, null, malloc, free, memcpy}
use first_os_build.Stdio.{int, text, snprintf}
use first_os_build.Terminal.{
  KernelState, terminal_clear, terminal_write, terminal_write_char, terminal_write_string,
  terminal_movecursor, terminal_get_size,
}

-- `E`
pub record Editor : Type 0 where
  pub buffer : Ptr
  pub buffer_size : ℕ
  pub cursor_x : ℕ
  pub cursor_y : ℕ
  pub filename : Option Bytes
  pub screen_rows : ℕ
  pub screen_cols : ℕ
  pub is_modified : Bool

-- What the editor works on.
pub record Desk : Type 0 where
  pub editor : Editor
  pub memory : Memory
  pub kernel : KernelState
  pub keyboard : Keyboard

-- The call of `compiler_init` resets two variables that nothing reads.
unfoldable pub editor_init : Editor → Editor
editor_init e =
    let (rows, cols) = terminal_get_size in
    let rows' = if rows == 0 then 24 else rows in
    record {
      buffer = null;
      buffer_size = 0;
      cursor_x = 0;
      cursor_y = 0;
      filename = none;
      screen_rows = rows' - 1;
      screen_cols = if cols == 0 then 80 else cols;
      is_modified = false;
    }

-- `read_file` returns null for a null name and else `dummy_buffer`, at the address `dummy`.
unfoldable pub editor_open : ℕ → Ptr → Option Bytes → Desk → Option Desk
editor_open fuel dummy filename d =
    let e = record d.editor { filename = filename } in
    if is_none filename || dummy == null
    then some (record d { editor = e })
    else (strlen_at fuel dummy d.memory >>= λ n.
        some (record d { editor = record e { buffer = dummy; buffer_size = n } }))

abbrev pub set_byte : Ptr → ℕ → Memory → Memory
set_byte p c m = record m { byte = λ a. if a == p then c else m.byte a }

-- "Copy existing content"
unfoldable pub move_text : ℕ → Ptr → Editor → Memory → Option Memory
move_text fuel new_buffer e m =
    if e.buffer == null
    then some m
    else free fuel e.buffer (memcpy new_buffer e.buffer e.buffer_size m)

-- `E.cursor_x++`, and the wrap at the right edge
unfoldable pub advance : Editor → Editor
advance e =
    let x = (e.cursor_x + 1) % 2 ^ 32 in
    if leb e.screen_cols x
    then record e { cursor_x = 0; cursor_y = (e.cursor_y + 1) % 2 ^ 32 }
    else record e { cursor_x = x }

unfoldable pub editor_insert_char : ℕ → ℕ → Editor → Memory → Option (Editor × Memory)
editor_insert_char fuel c e m = do
  let new_size = (e.buffer_size + 2) % 2 ^ 32
  (new_buffer, m) ← malloc fuel new_size m
  if new_buffer == null then some (e, m) else do
    m ← move_text fuel new_buffer e m
    let m = set_byte (new_buffer + e.buffer_size + 1) 0 (set_byte (new_buffer + e.buffer_size) c m)
    some (advance (record e { buffer = new_buffer; buffer_size = new_size - 1 }), m)

-- "Copy content before cursor" and "Copy content after cursor": `n` bytes, without that before `x`
unfoldable pub squeeze : Ptr → Ptr → ℕ → ℕ → Memory → Memory
squeeze new_buffer buffer x n m =
    let before = memcpy new_buffer buffer (x - 1) m in
    if ltb x n then memcpy (new_buffer + x - 1) (buffer + x) (n - x) before else before

unfoldable pub editor_delete_char : ℕ → Editor → Memory → Option (Editor × Memory)
editor_delete_char fuel e m =
    if ltb 0 e.buffer_size && ltb 0 e.cursor_x
    then (do
      (new_buffer, m) ← malloc fuel e.buffer_size m
      if new_buffer == null then some (e, m) else do
        m ← free fuel e.buffer (squeeze new_buffer e.buffer e.cursor_x e.buffer_size m)
        some (
          record e {
            buffer = new_buffer;
            buffer_size = e.buffer_size - 1;
            cursor_x = e.cursor_x - 1;
          },
          m,
        ))
    else some (e, m)

-- "Find end of current line", among the `n` bytes from `p` on
unfoldable pub line_size : ℕ → Ptr → Memory → ℕ
line_size zero p m = 0
line_size (suc n) p m =
    let rest = line_size n (p + 1) m in if m.byte p == b'\n' then 0 else suc rest

-- The loop over the lines, from `at` in the buffer, with `rows` lines of the screen left.
unfoldable pub show_lines : ℕ → ℕ → Editor → Memory → KernelState → Option KernelState
show_lines zero at e m s = some s
show_lines (suc rows) at e m s =
    let length = line_size (e.buffer_size - at) (e.buffer + at) m in
    let line_length = if ltb e.screen_cols length then e.screen_cols else length in
    let shown = (do
      s ← terminal_write (bytes_at m (e.buffer + at) line_length) line_length s
      s ← terminal_write_string (b'\r' ∷ b'\n' ∷ 0 ∷ []) s
      show_lines rows (at + length + 1) e m s) in
    if ltb at e.buffer_size then shown else some s

-- `while (padding--) terminal_write_char(' ');`
unfoldable pub write_spaces : ℕ → KernelState → Option KernelState
write_spaces zero s = some s
write_spaces (suc n) s = terminal_write_char b' ' s >>= write_spaces n

-- "Display welcome message"; with no room `padding` is 0 and the `~` is left out.
unfoldable pub show_welcome : Editor → KernelState → Option KernelState
show_welcome e s =
    if ltb 2 e.screen_rows
    then (do
      let welcomelen = if ltb e.screen_cols 23 then e.screen_cols else 23
      let padding = (e.screen_cols - welcomelen) / 2
      s ← if padding == 0 then some s else terminal_write_char b'~' s
      s ← write_spaces (padding - 1) s
      terminal_write_string (codes "Editor -- version 2.0.0" ++ 0 ∷ []) s)
    else some s

-- "Status line"
unfoldable pub show_status : Editor → KernelState → Option KernelState
show_status e s = do
  (n, status) ← snprintf (some 80) 80 (some (codes "%.20s - %zu bytes %zu,%zu" ++ 0 ∷ [])) (
      text (some (Option.get_or e.filename (codes "[No Name]" ++ 0 ∷ [])))
      ∷ int (pos e.buffer_size)
      ∷ int (pos (e.cursor_y + 1))
      ∷ int (pos (e.cursor_x + 1))
      ∷ [])
  terminal_write_string (status ++ 0 ∷ []) (terminal_movecursor 0 e.screen_rows s)

unfoldable pub editor_refresh_screen : Editor → Memory → KernelState → Option KernelState
editor_refresh_screen e m s = do
  s ← terminal_clear s
  s ← if e.buffer == null then show_welcome e s else show_lines e.screen_rows 0 e m s
  s ← show_status e s
  some (terminal_movecursor e.cursor_x e.cursor_y s)

-- The parameters: `call` is what the processor does from an address on, `stack` the bytes under the
-- compiler's `line_buffer`, `fuel` the rounds of the allocator's loops.
module _ (call : Ptr → Memory → Option Memory) (stack : Bytes) (fuel : ℕ) where
  -- The part of `editor_compile_and_run` behind the compilation.
  unfoldable pub run_result : CompileResult → Desk → Option Desk
  run_result result d =
      if not result.success
      then (do
        s ← terminal_write_string (b'\r' ∷ b'\n' ∷ codes "Compilation failed: " ++ 0 ∷ []) d.kernel
        s ← terminal_write_string result.error_message s
        s ← terminal_write_string (b'\r' ∷ b'\n' ∷ 0 ∷ []) s
        some (record d { kernel = s }))
      else (do
        s ←
            terminal_write_string
              (b'\r' ∷ b'\n' ∷ codes "Compilation successful. Running..." ++ b'\r' ∷ b'\n' ∷ 0 ∷ [])
              d.kernel
        (ran, m) ← execute_binary call fuel result.binary result.binary_size d.memory
        s ←
            if ran
            then some s
            else terminal_write_string (codes "Execution failed!" ++ b'\r' ∷ b'\n' ∷ 0 ∷ []) s
        m ← if result.binary == null then some m else free fuel result.binary m
        some (record d { memory = m; kernel = s }))

  unfoldable pub editor_compile_and_run : Desk → Option Desk
  editor_compile_and_run d =
      if d.editor.buffer == null || d.editor.buffer_size == 0
      then (do
        s ←
            terminal_write_string
              (b'\r' ∷ b'\n' ∷ codes "No code to compile!" ++ b'\r' ∷ b'\n' ∷ 0 ∷ []) d.kernel
        some (record d { kernel = s }))
      else (do
        (result, m) ← compile_code fuel stack d.editor.buffer d.editor.buffer_size d.memory
        run_result result (record d { memory = m }))

  -- the case '\r' and '\n'
  unfoldable pub enter_key : Desk → Option Desk
  enter_key d = do
    (e, m) ← editor_insert_char fuel b'\n' d.editor d.memory
    some (record d {
      editor = record e { cursor_x = 0; cursor_y = (e.cursor_y + 1) % 2 ^ 32; is_modified = true };
      memory = m;
    })

  unfoldable pub backspace_key : Desk → Option Desk
  backspace_key d = do
    (e, m) ← editor_delete_char fuel d.editor d.memory
    some (record d { editor = record e { is_modified = true }; memory = m })

  -- the case 17; the result says whether the editor goes on
  unfoldable pub quit_key : Desk → Option (Bool × Desk)
  quit_key d =
      if d.editor.is_modified
      then (do
        s ←
            terminal_write_string
              (b'\r' ∷ b'\n' ∷ codes "Warning: Unsaved changes! Press Ctrl-Q again to quit."
                ++ b'\r' ∷ b'\n' ∷ 0 ∷ [])
              d.kernel
        some (true, record d { editor = record d.editor { is_modified = false }; kernel = s }))
      else (do
        s ← terminal_clear d.kernel
        s ← terminal_write_string (codes "Exiting editor..." ++ b'\n' ∷ 0 ∷ []) s
        some (false, record d { kernel = s }))

  -- the case 19; the stub of `write_file` stores nothing
  unfoldable pub save_key : Desk → Option Desk
  save_key d = if is_none d.editor.filename || d.editor.buffer == null then some d else (do
    s ←
        terminal_write_string (b'\r' ∷ b'\n' ∷ codes "File saved." ++ b'\r' ∷ b'\n' ∷ 0 ∷ [])
          d.kernel
    some (record d { editor = record d.editor { is_modified = false }; kernel = s }))

  unfoldable pub text_key : ℕ → Desk → Option Desk
  text_key c d =
      if leb 32 c && ltb c 127
      then (do
        (e, m) ← editor_insert_char fuel c d.editor d.memory
        some (record d { editor = record e { is_modified = true }; memory = m }))
      else some d

  -- The switch of `editor_process_keypress`.
  unfoldable pub press : ℕ → Desk → Option (Bool × Desk)
  press c d =
      let on : Option Desk → Option (Bool × Desk) = Option.map (λ d'. (true, d')) in
      if c == b'\r' || c == b'\n'
      then on (enter_key d)
      else if c == 0x08
      then on (backspace_key d)
      else if c == 17
      then quit_key d
      else if c == 19
      then on (save_key d)
      else if c == 18
      then on (editor_compile_and_run d)
      else on (text_key c d)

  -- `editor_process_keypress` behind `keyboard_getchar`
  unfoldable pub process_char : ℕ → Desk → Option (Bool × Desk)
  process_char c d = if c == 0 then some (true, d) else do
    (running, d) ← press c d
    if running
        then (do
          s ← editor_refresh_screen d.editor d.memory d.kernel
          some (true, record d { kernel = s }))
        else some (false, d)

  -- Whether the editor goes on: after Ctrl-Q the processor halts.
  unfoldable pub editor_process_keypress : Desk → Option (Bool × Desk)
  editor_process_keypress d =
      let (c, k) = keyboard_getchar d.keyboard in process_char c (record d { keyboard = k })
