-- ===== src/Keyboard.antt =====
-- kernel/keyboard.cpp: the US layout, the scancode handler and the ring of pending characters.
-- A `char` is its byte. The scancode that the handler reads from port 0x60 is an argument.
pub mod Clear
pub mod Init
pub mod Interleave
pub mod Layout
pub mod Queue
pub mod Reader
pub mod Refine
mod Tests
pub mod Ring
use first_os_build.Prelude.{
  ℕ, ◌+◌, ◌%◌, bit_and, bit_or, bit_xor, Bool, true, false, not, ◌&&◌, ◌||◌, [], ◌∷◌, ◌++◌, Bytes,
  codes, ltb, leb, ◌==◌, if◌then◌else◌, length, get_or, set,
}

abbrev pub keyboard_buffer_size : ℕ
keyboard_buffer_size = 256

pub record Keyboard : Type 0 where
  pub keyboard_buffer : Bytes
  pub buffer_start : ℕ
  pub buffer_end : ℕ
  pub shift_pressed : Bool
  pub caps_lock : Bool

abbrev pub scancode_to_ascii : Bytes
scancode_to_ascii =
    (0 ∷ 0 ∷ codes "1234567890-=")
    ++ (8 ∷ 9 ∷ codes "qwertyuiop[]")
    ++ (10 ∷ 0 ∷ codes "asdfghjkl;'`")
    ++ (0 ∷ codes "\\zxcvbnm,./")
    ++ (0 ∷ b'*' ∷ 0 ∷ b' ' ∷ [])

abbrev pub scancode_to_ascii_shift : Bytes
scancode_to_ascii_shift =
    (0 ∷ 0 ∷ codes "!@#$%^&*()_+")
    ++ (8 ∷ 9 ∷ codes "QWERTYUIOP{}")
    ++ (10 ∷ 0 ∷ codes "ASDFGHJKL:\"~")
    ++ (0 ∷ codes "|ZXCVBNM<>?")
    ++ (0 ∷ b'*' ∷ 0 ∷ b' ' ∷ [])

-- `(c >= 'a' && c <= 'z') || (c >= 'A' && c <= 'Z')`
unfoldable pub is_letter : ℕ → Bool
is_letter c = (leb b'a' c && leb c b'z') || (leb b'A' c && leb c b'Z')

-- "Apply caps lock"
unfoldable pub apply_caps : Bool → ℕ → ℕ
unfolding is_letter
apply_caps caps c = if caps && is_letter c then bit_xor c 0x20 else c

-- The character of a key press under the two modifiers, 0 where the key has none.
unfoldable pub to_char : ℕ → Bool → Bool → ℕ
unfolding apply_caps
to_char scancode shift caps =
    if ltb scancode (length scancode_to_ascii)
    then apply_caps caps (
        if shift
        then get_or scancode_to_ascii_shift scancode 0
        else get_or scancode_to_ascii scancode 0)
    else 0

-- "Add to buffer", unless the ring is full.
unfoldable pub add_char : ℕ → Keyboard → Keyboard
add_char c k =
    let next_end = (k.buffer_end + 1) % keyboard_buffer_size in
    if next_end == k.buffer_start
    then k
    else record k { keyboard_buffer = set k.keyboard_buffer k.buffer_end c; buffer_end = next_end }

unfoldable pub keyboard_handler : ℕ → Keyboard → Keyboard
keyboard_handler scancode k =
    if scancode == 0x2A || scancode == 0x36
    then record k { shift_pressed = true }
    else if scancode == bit_or 0x2A 0x80 || scancode == bit_or 0x36 0x80
    then record k { shift_pressed = false }
    else if scancode == 0x3A
    then record k { caps_lock = not k.caps_lock }
    else if not (bit_and scancode 0x80 == 0)
    then k
    else let c = to_char scancode k.shift_pressed k.caps_lock in
      if not (c == 0) then add_char c k else k

unfoldable pub keyboard_getchar : Keyboard → ℕ × Keyboard
keyboard_getchar k = if k.buffer_start == k.buffer_end then (0, k) else (
  get_or k.keyboard_buffer k.buffer_start 0,
  record k { buffer_start = (k.buffer_start + 1) % keyboard_buffer_size },
)

unfoldable pub keyboard_available : Keyboard → Bool
keyboard_available k = not (k.buffer_start == k.buffer_end)

unfoldable pub keyboard_clear_buffer : Keyboard → Keyboard
keyboard_clear_buffer k = record k { buffer_start = 0; buffer_end = 0 }
