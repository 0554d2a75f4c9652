-- ===== src/Editor/Process.antt =====
-- kernel/editor.cpp: `editor_process_keypress` against the round of Editor/Session.antt.
use mathlib.Core.Option.{Option}
use first_os_build.Prelude.{
  ℕ, zero, suc, ◌+◌, ◌*◌, ◌≤◌, ◌<◌, ◌≡◌, ◌⊎◌, some, ◌>>=◌, refl, true, false, not, ◌&&◌, List,
  Bytes, length, arith, inl, inr, Returns, returns, Bool-cases, ◌==◌, if◌then◌else◌, ap, ◌∙◌, sym,
  subst, All,
}
use first_os_build.Prelude.Maybe
use first_os_build.Compiler.{bytes_at}
use first_os_build.Editor.{
  Desk, press, process_char, editor_process_keypress, editor_refresh_screen,
}
use first_os_build.Editor.Page.{page, blanked}
use first_os_build.Editor.Buffer.{Edits}
use first_os_build.Editor.Keys.{press_refines}
use first_os_build.Editor.Refresh.{refresh_refines}
use first_os_build.Editor.Session
use first_os_build.Editor.Session.{Session, inserts}
use first_os_build.Editor.Text
use first_os_build.Editor.Text.{Text, length-key}
use first_os_build.Keyboard.{Keyboard, keyboard_getchar}
use first_os_build.Keyboard.Layout.{Typable, read-Typable}
use first_os_build.Keyboard.Queue
use first_os_build.Keyboard.Queue.{Queue}
use first_os_build.Keyboard.Refine.{abstract_of, getchar_refines}
use first_os_build.Keyboard.Ring.{IsValid, getchar-IsValid}
use first_os_build.Memory.{Ptr, Memory, null}
use first_os_build.Memory.Blocks.{Block}
use first_os_build.Terminal.Refine.{Shows}
use first_os_build.Terminal.View

-- The desk is that of the session, with room for `rounds` more rounds: below 2 ^ 32 for the blocks
-- that the text may need, and in the fuel for the blocks that there may be.
pub record Works (rounds fuel : ℕ) (d : Desk) (s : Session) : Type 0 where
  pub blocks : List Block
  pub end : ℕ
  pub edits : Edits d.editor d.memory blocks end s.text
  pub null : (d.editor.buffer == null) ≡ s.untouched
  pub ring : IsValid d.keyboard
  pub queue : abstract_of d.keyboard ≡ s.queue
  pub typable : All Typable s.queue.chars
  pub shows : Shows 7 s.view d.kernel
  pub room : end + rounds * (length s.text.chars + rounds + 14) < 4294967296
  pub enough : length blocks + rounds ≤ fuel

pub mul_le : (a b c : ℕ) → b ≤ c → a * b ≤ a * c
mul_le zero b c h = omega arith
mul_le (suc a) b c h = omega (arith, mul_le a b c h)

-- One round less, for a text longer by one and a heap grown by what it needs.
room_left :
    (r end n end' n' : ℕ)
    → end + suc r * (n + suc r + 14) < 4294967296
    → end' ≤ end + n + 14
    → n' ≤ n + 1
    → end' + r * (n' + r + 14) < 4294967296
room_left r end n end' n' h low longer =
    omega (arith, mul_le r (n' + r + 14) (n + suc r + 14) (omega arith))

-- A round that changes neither the text nor the heap.
pub rest : (r fuel : ℕ) (d : Desk) (s : Session) → Works (suc r) fuel d s → Works r fuel d s
rest r fuel d s w = record {
  blocks = w.blocks;
  end = w.end;
  edits = w.edits;
  null = w.null;
  ring = w.ring;
  queue = w.queue;
  typable = w.typable;
  shows = w.shows;
  room =
      room_left r w.end (length s.text.chars) w.end (length s.text.chars) w.room (omega arith)
        (omega arith);
  enough = omega (arith, w.enough);
}

read_refines :
    (n fuel : ℕ) (d : Desk) (s : Session)
    → Works n fuel d s
    → ((keyboard_getchar d.keyboard).0, abstract_of (keyboard_getchar d.keyboard).1)
      ≡ Queue.read s.queue.chars s.queue.shift s.queue.caps
read_refines n fuel d s w =
    getchar_refines w.ring ∙ ap (λ (q : Queue). Queue.read q.chars q.shift q.caps) w.queue

-- Another keyboard state for the desk, with its queue.
pub with_queue :
    (n fuel : ℕ) (d : Desk) (s : Session) (k : Keyboard) (q : Queue)
    → IsValid k
    → abstract_of k ≡ q
    → All Typable q.chars
    → Works n fuel d s
    → Works n fuel (record d { keyboard = k }) (record s { queue = q })
with_queue n fuel d s k q v same typable w = record {
  blocks = w.blocks;
  end = w.end;
  edits = w.edits;
  null = w.null;
  ring = v;
  queue = same;
  typable = typable;
  shows = w.shows;
  room = w.room;
  enough = w.enough;
}

-- What reading a character does to the desk and to the session.
popped :
    (n fuel : ℕ) (d : Desk) (s : Session)
    → Works n fuel d s
    → Works n fuel
        (record d { keyboard = (keyboard_getchar d.keyboard).1 })
        (record s { queue = abstract_of (keyboard_getchar d.keyboard).1 })
popped n fuel d s w =
    with_queue n fuel d s (keyboard_getchar d.keyboard).1 _ (getchar-IsValid w.ring) refl
      (subst (λ (p : ℕ × Queue). All Typable p.1.chars) (sym (read_refines n fuel d s w))
        (read-Typable s.queue.chars s.queue.shift s.queue.caps w.typable).1)
      w

getchar-IsTyped :
    (n fuel : ℕ) (d : Desk) (s : Session)
    → Works n fuel d s
    → let c = (keyboard_getchar d.keyboard).0 in (c ≡ 0) ⊎ Typable c
getchar-IsTyped n fuel d s w =
    subst (λ (p : ℕ × Queue). (p.0 ≡ 0) ⊎ Typable p.0) (sym (read_refines n fuel d s w))
      (read-Typable s.queue.chars s.queue.shift s.queue.caps w.typable).0

module _ (call : Ptr → Memory → Option Memory) (stack : Bytes) (fuel : ℕ) where
  apply_refines :
      (r c : ℕ) (d : Desk) (s : Session)
      → Typable c
      → Works (suc r) fuel d s
      → Returns
          (λ (running, d'). (running ≡ true) × Works r fuel d' (Session.apply c s))
          (press call stack fuel c d >>= λ (running, d).
            if running
            then (editor_refresh_screen d.editor d.memory d.kernel >>= λ k.
                some (true, record d { kernel = k }))
            else some (false, d))
  unfolding Session.apply Session.draw
  apply_refines r c d s typable w =
      let n : ℕ = length s.text.chars in
      Maybe.bind
        (press_refines call stack fuel d w.blocks s.text w.edits (omega (arith, w.room))
          (omega (arith, w.enough)) c typable)
        λ (running, d') (on, (grown, keyboard, kernel)).
          let g = grown.edits in
          rw on (
            Maybe.bind
              (refresh_refines d'.editor d'.memory (Text.key 80 c s.text).chars g.rows g.cols
                (ap (bytes_at d'.memory d'.editor.buffer) g.holds.count ∙ g.holds.bytes)
                (subst (Shows 7 s.view) (sym kernel) w.shows))
              λ k shows. returns (
                refl {a = true},
                record {
                  blocks = grown.blocks;
                  end = grown.end;
                  edits = g;
                  null = grown.null ∙ ap (λ b. b && not (inserts c)) w.null;
                  ring = subst IsValid (sym keyboard) w.ring;
                  queue = ap abstract_of keyboard ∙ w.queue;
                  typable = w.typable;
                  shows =
                      subst
                        (λ b.
                          Shows 7
                            (View.type_text 7 (page b (Text.key 80 c s.text).chars)
                              (blanked 7 s.view))
                            k)
                        (grown.null ∙ ap (λ b. b && not (inserts c)) w.null) shows;
                  room =
                      room_left r w.end n grown.end (length (Text.key 80 c s.text).chars) w.room
                        grown.low (length-key 80 c s.text w.edits.within);
                  enough = omega (arith, grown.few, w.enough);
                },
              ))

  -- What is left of a round once a character is read.
  pub process_char_refines :
      (r c : ℕ) (d : Desk) (s : Session)
      → (c ≡ 0) ⊎ Typable c
      → Works (suc r) fuel d s
      → Returns
          (λ (running, d').
            (running ≡ true) × Works r fuel d' (if c == 0 then s else Session.apply c s))
          (process_char call stack fuel c d)
  unfolding process_char
  process_char_refines r c d s typed w = elim (Bool-cases (c == 0)) [
    | inl nothing ↦ rw nothing (returns (refl {a = true}, rest r fuel d s w))
    | inr some_c ↦
        let typable : Typable c = elim typed [
          | inl none_left ↦ absurd (ground arith)
          | inr typable ↦ typable
        ] in
        rw some_c (apply_refines r c d s typable w)
  ]

  -- From a desk that works as a session, with room for a round more, `editor_process_keypress` always
  -- ends and goes on. It does a round of the session: it takes the oldest character from the ring,
  -- applies it to the text and draws the page, or does nothing when the ring is empty.
  pub process_refines :
      (r : ℕ) (d : Desk) (s : Session)
      → Works (suc r) fuel d s
      → Returns
          (λ (running, d'). (running ≡ true) × Works r fuel d' (Session.round s))
          (editor_process_keypress call stack fuel d)
  unfolding editor_process_keypress Session.round
  process_refines r d s w =
      let k = (keyboard_getchar d.keyboard).1 in
      rw (← read_refines (suc r) fuel d s w) (
        process_char_refines r (keyboard_getchar d.keyboard).0 (record d { keyboard = k })
          (record s { queue = abstract_of k }) (getchar-IsTyped (suc r) fuel d s w)
          (popped (suc r) fuel d s w))
