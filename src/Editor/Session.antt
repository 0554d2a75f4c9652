-- ===== src/Editor/Session.antt =====
-- What the kernel's loop promises to a user: the typed characters wait in a queue, each round of the loop
-- takes one from it and applies it to the text, and shows the text.
use first_os_build.Prelude.{
  ℕ, Bool, not, ◌&&◌, ◌||◌, List, [], ◌∷◌, Bytes, leb, ltb, ◌==◌, if◌then◌else◌,
}
use first_os_build.Editor.Page.{page, blanked}
use first_os_build.Editor.Text
use first_os_build.Editor.Text.{Text}
use first_os_build.Keyboard.Queue
use first_os_build.Keyboard.Queue.{Queue}
use first_os_build.Terminal.View
use first_os_build.Terminal.View.{View}

-- `untouched`: no character was inserted yet.
pub record Session : Type 0 where
  pub text : Text
  pub queue : Queue
  pub view : View
  pub untouched : Bool

-- The screen of 80 columns, light grey on black.
unfoldable pub draw : Bool → Bytes → View → View
draw untouched cs v = View.type_text 7 (page untouched cs) (blanked 7 v)

unfoldable pub inserts : ℕ → Bool
inserts c = c == b'\n' || (leb 32 c && ltb c 127)

-- What the character `c` does.
unfoldable pub apply : ℕ → Session → Session
apply c s =
    let text = Text.key 80 c s.text in
    let untouched = s.untouched && not (inserts c) in
    record s { text = text; untouched = untouched; view = draw untouched text.chars s.view }

-- With no character waiting nothing happens.
unfoldable pub round : Session → Session
round s =
    let (c, queue) = Queue.read s.queue.chars s.queue.shift s.queue.caps in
    let s = record s { queue = queue } in if c == 0 then s else apply c s

-- Keys by their scancodes.
unfoldable pub scan : List ℕ → Queue → Queue
scan [] q = q
scan (scancode ∷ more) q = scan more (Queue.press scancode q)

-- Rounds, each after the keys that were pressed or released before it.
unfoldable pub run : List (List ℕ) → Session → Session
run [] s = s
run (scancodes ∷ rounds) s = run rounds (round (record s { queue = scan scancodes s.queue }))
