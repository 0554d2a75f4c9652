-- ===== src/Editor/Moments.antt =====
-- The session of Editor/Session.antt under keys and rounds in any order.
use first_os_build.Prelude.{
  ℕ, ◌+◌, ◌≤◌, ◌≡◌, refl, List, [], ◌∷◌, ◌++◌, length, arith, ap, ◌∙◌, sym,
}
use first_os_build.Editor.Session
use first_os_build.Editor.Session.{Session}
use first_os_build.Editor.Schedule.{to_come, none_left, typed, round-to_come, scan-typed}
use first_os_build.Editor.Text
use first_os_build.Keyboard.Queue

-- A key is pressed or released, or a round reads a character and applies it.
pub data Moment : Type 0 where
  pressed : ℕ → Moment
  read : Moment

unfoldable pub play : List Moment → Session → Session
play [] s = s
play (pressed scancode ∷ ms) s = play ms (record s { queue = Queue.press scancode s.queue })
play (read ∷ ms) s = play ms (Session.round s)

abbrev pub keys_of : List Moment → List ℕ
keys_of [] = []
keys_of (pressed scancode ∷ ms) = scancode ∷ keys_of ms
keys_of (read ∷ ms) = keys_of ms

pub play-append : (ms ns : List Moment) (s : Session) → play (ms ++ ns) s ≡ play ns (play ms s)
unfolding play
play-append [] ns s = refl
play-append (pressed scancode ∷ ms) ns s =
    play-append ms ns (record s { queue = Queue.press scancode s.queue })
play-append (read ∷ ms) ns s = play-append ms ns (Session.round s)

pub keys_of-append : (ms ns : List Moment) → keys_of (ms ++ ns) ≡ keys_of ms ++ keys_of ns
keys_of-append [] ns = refl
keys_of-append (pressed scancode ∷ ms) ns = ap (◌∷◌ scancode) (keys_of-append ms ns)
keys_of-append (read ∷ ms) ns = keys_of-append ms ns

-- What will become of the text does not depend on when the keys come, while at most 255 characters wait.
pub play-to_come :
    (ms : List Moment) (s : Session)
    → length s.queue.chars + length (keys_of ms) ≤ 255
    → to_come [] (play ms s) ≡ to_come (keys_of ms) s
unfolding play Session.scan
play-to_come [] s room = refl
play-to_come (pressed scancode ∷ ms) s room =
    let (same, few) = scan-typed (scancode ∷ []) (keys_of ms) s.queue (omega arith) in
    play-to_come ms (record s { queue = Queue.press scancode s.queue }) (omega (arith, few))
    ∙ ap (λ cs. Text.keys 80 cs s.text) same
play-to_come (read ∷ ms) s room =
    let (kept, fewer, shift, caps) = round-to_come (keys_of ms) s.queue.chars s in
    play-to_come ms (Session.round s) (omega (arith, fewer)) ∙ kept

pub length-play :
    (ms : List Moment) (s : Session)
    → length s.queue.chars + length (keys_of ms) ≤ 255
    → length (play ms s).queue.chars ≤ length s.queue.chars + length (keys_of ms)
unfolding play Session.scan
length-play [] s room = omega arith
length-play (pressed scancode ∷ ms) s room =
    let (same, few) = scan-typed (scancode ∷ []) (keys_of ms) s.queue (omega arith) in
    omega (
      arith,
      few,
      length-play ms (record s { queue = Queue.press scancode s.queue }) (omega (arith, few)),
    )
length-play (read ∷ ms) s room =
    let (kept, fewer, shift, caps) = round-to_come (keys_of ms) s.queue.chars s in
    omega (arith, fewer, length-play ms (Session.round s) (omega (arith, fewer)))

-- With at most 255 keys and waiting characters, and none that waits in the end, the text is that of all the
-- characters in their order.
pub play-typed :
    (ms : List Moment) (s : Session)
    → length s.queue.chars + length (keys_of ms) ≤ 255
    → length (play ms s).queue.chars ≡ 0
    → ((play ms s).queue.chars ≡ []) × ((play ms s).text ≡ to_come (keys_of ms) s)
unfolding Text.keys typed
play-typed ms s room none_waits =
    let empty = none_left (play ms s).queue.chars (omega arith) in
    (
      empty,
      ap (λ cs. Text.keys 80 (cs ++ []) (play ms s).text) (sym empty) ∙ play-to_come ms s room,
    )
