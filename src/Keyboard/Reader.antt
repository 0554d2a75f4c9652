-- ===== src/Keyboard/Reader.antt =====
-- kernel/keyboard.cpp: `keyboard_getchar` and `keyboard_available` one access of the ring at a time, as the
-- code between two interrupts sees it. The handler runs with interrupts off, and so at one go.
use first_os_build.Prelude.{
  ℕ, ◌+◌, ◌%◌, ◌<◌, ◌≡◌, not, if◌then◌else◌, List, [], ◌∷◌, ◌++◌, ◌==◌, get_or,
}
use first_os_build.Keyboard.{Keyboard, keyboard_handler, keyboard_buffer_size}
use first_os_build.Keyboard.Queue.{Event, scan, getchar, available, Reply, nothing, char, flag}

-- Where the code stands that runs when no interrupt does, with what it holds there.
pub data Reader : Type 0 where
  idle : Reader
  compares : ℕ → Reader  -- keyboard_getchar, with `buffer_start`
  found : Reader  -- keyboard_getchar, past its test
  holds : ℕ → Reader  -- keyboard_getchar, with `c`
  checks : ℕ → Reader  -- keyboard_available, with `buffer_start`

-- What happens, in its order. A reply stands where it is settled: the last access of the ring by its call.
abbrev pub Trace : Type 0
Trace = List (Event × Reply)

-- The function that is called next.
pub data Call : Type 0 where
  wants_char : Call  -- keyboard_getchar
  wants_flag : Call  -- keyboard_available

-- One access of the ring.
unfoldable pub access : Call → Reader → Keyboard → Trace × Reader × Keyboard
access wants_char idle k = ([], compares k.buffer_start, k)
access wants_flag idle k = ([], checks k.buffer_start, k)
access call (compares s) k =
    if s == k.buffer_end then ((getchar, char 0) ∷ [], idle, k) else ([], found, k)
access call found k = ([], holds (get_or k.keyboard_buffer k.buffer_start 0), k)
access call (holds c) k = (
  (getchar, char c) ∷ [],
  idle,
  record k { buffer_start = (k.buffer_start + 1) % keyboard_buffer_size },
)
access call (checks s) k = ((available, flag (not (s == k.buffer_end))) ∷ [], idle, k)

-- One access of the reader, or one interrupt with a byte scancode.
pub data Move (k : Keyboard) (r : Reader) : Trace → Reader → Keyboard → Type 0 where
  accesses :
      (call : Call) {t : Trace} {r' : Reader} {k' : Keyboard}
      → access call r k ≡ (t, r', k')
      → Move k r t r' k'
  interrupt : (s : ℕ) → s < 256 → Move k r ((scan s, nothing) ∷ []) r (keyboard_handler s k)

pub data Moves (k : Keyboard) (r : Reader) : Trace → Reader → Keyboard → Type 0 where
  done : Moves k r [] r k
  next :
      {t u : Trace} {r' r'' : Reader} {k' k'' : Keyboard}
      → Moves k r t r' k'
      → Move k' r' u r'' k''
      → Moves k r (t ++ u) r'' k''
