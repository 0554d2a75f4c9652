-- ===== src/Keyboard/Queue.antt =====
-- What kernel/keyboard.cpp promises: a first-in first-out queue of at most 255 typed characters,
-- beside the two modifier keys.
use first_os_build.Prelude.{
  ℕ, Bool, true, false, not, ◌||◌, [], ◌∷◌, ◌++◌, Bytes, List, ltb, ◌==◌, if◌then◌else◌, length,
}
use first_os_build.Keyboard.{to_char}

pub record Queue : Type 0 where
  pub chars : Bytes
  pub shift : Bool
  pub caps : Bool

-- What happens to the driver: an interrupt with its scancode, or a call of the editor's.
pub data Event : Type 0 where
  scan : ℕ → Event
  getchar : Event
  available : Event
  clear : Event

pub data Reply : Type 0 where
  nothing : Reply
  char : ℕ → Reply
  flag : Bool → Reply

-- A key without a character, and a full queue, change nothing.
unfoldable pub type_in : ℕ → Queue → Queue
type_in c q =
    if c == 0
    then q
    else if ltb (length q.chars) 255
    then record q { chars = q.chars ++ (c ∷ []) }
    else q

-- The two shift keys and caps lock, then the keys of the layout. Codes from 0x80 on are releases.
unfoldable pub press : ℕ → Queue → Queue
press s q =
    if s == 0x2A || s == 0x36
    then record q { shift = true }
    else if s == 0xAA || s == 0xB6
    then record q { shift = false }
    else if s == 0x3A
    then record q { caps = not q.caps }
    else if ltb s 0x80
    then type_in (to_char s q.shift q.caps) q
    else q

-- The oldest character, or 0 where there is none.
unfoldable pub read : Bytes → Bool → Bool → ℕ × Queue
read [] shift caps = (0, record { chars = []; shift = shift; caps = caps })
read (c ∷ cs) shift caps = (c, record { chars = cs; shift = shift; caps = caps })

unfoldable pub is_empty : Bytes → Bool
is_empty [] = true
is_empty (c ∷ cs) = false

unfoldable pub step : Event → Queue → Reply × Queue
unfolding press type_in read is_empty
step (scan s) q = (nothing, press s q)
step getchar q = let (c, q') = read q.chars q.shift q.caps in (char c, q')
step available q = (flag (not (is_empty q.chars)), q)
step clear q = (nothing, record q { chars = [] })

unfoldable pub run : List Event → Queue → List Reply
unfolding step
run [] q = []
run (e ∷ es) q = let (r, q') = step e q in r ∷ run es q'
