-- ===== src/Keyboard/Refine.antt =====
-- kernel/keyboard.cpp: the driver behaves as the queue of Keyboard/Queue.antt.
use first_os_build.Prelude.{
  ℕ, ◌<◌, ◌≡◌, ◌≢◌, refl, ap, true, false, not, [], ◌∷◌, List, arith, length, bit_and, every_below,
  every_below-at, ltb, ◌==◌, All, inl, inr, Bool-cases,
}
use first_os_build.Keyboard.{
  Keyboard, to_char, add_char, keyboard_handler, keyboard_getchar, keyboard_available,
  keyboard_clear_buffer,
}
use first_os_build.Keyboard.Queue
use first_os_build.Keyboard.Queue.{
  Queue, Event, scan, getchar, available, clear, Reply, nothing, char, flag,
}
use first_os_build.Keyboard.Ring.{
  IsValid, waiting, contents, length-pending, add_char-IsValid, add_char-full, add_char-contents,
  getchar-IsValid, getchar-empty, getchar-contents,
}

-- One event of the driver: the interrupt, or a call of the editor's.
unfoldable pub step : Event → Keyboard → Reply × Keyboard
step (scan s) k = (nothing, keyboard_handler s k)
step getchar k = let (c, k') = keyboard_getchar k in (char c, k')
step available k = (flag (keyboard_available k), k)
step clear k = (nothing, keyboard_clear_buffer k)

unfoldable pub run : List Event → Keyboard → List Reply
unfolding step
run [] k = []
run (e ∷ es) k = let (r, k') = step e k in r ∷ run es k'

-- Scancodes are bytes.
abbrev pub IsByteEvent : Event → Type 0
IsByteEvent (scan s) = s < 256
IsByteEvent _ = Unit

abbrev pub abstract_of : Keyboard → Queue
abstract_of k = record { chars = contents k; shift = k.shift_pressed; caps = k.caps_lock }

release_table :
    every_below 256
      (λ s. elim (bit_and s 0x80 == 0) [ true ↦ ltb s 0x80 | false ↦ not (ltb s 0x80) ])
    ≡ true
unfolding every_below
release_table = refl

-- `scancode & 0x80` tells releases from presses.
release_bit : (s : ℕ) → s < 256 → (bit_and s 0x80 == 0) ≡ ltb s 0x80
release_bit s h = ground (arith, every_below-at 256 _ release_table s h)

add_char_modifiers :
    (c : ℕ) (k : Keyboard)
    → ((add_char c k).shift_pressed ≡ k.shift_pressed) × ((add_char c k).caps_lock ≡ k.caps_lock)
unfolding add_char
add_char_modifiers c k = ground arith

getchar_modifiers :
    (k : Keyboard)
    → ((keyboard_getchar k).1.shift_pressed ≡ k.shift_pressed)
      × ((keyboard_getchar k).1.caps_lock ≡ k.caps_lock)
unfolding keyboard_getchar
getchar_modifiers k = ground arith

module _ {k : Keyboard} (v : IsValid k) where
  length-contents : length (contents k) ≡ waiting k
  length-contents = length-pending k.keyboard_buffer k.buffer_start (waiting k)

  add_char_refines : (c : ℕ) → c ≢ 0 → abstract_of (add_char c k) ≡ Queue.type_in c (abstract_of k)
  unfolding Queue.type_in
  add_char_refines c h = elim (Bool-cases (ltb (waiting k) 255)) [
    | inl room ↦
        ground
          (arith, length-contents, add_char_modifiers c k, add_char-contents v c (ground arith))
    | inr full ↦ ground (arith, length-contents, add_char-full v c (ground arith))
  ]

  pub handler_refines :
      (s : ℕ) → s < 256 → abstract_of (keyboard_handler s k) ≡ Queue.press s (abstract_of k)
  unfolding keyboard_handler Queue.press Queue.type_in
  handler_refines s h =
      ground (arith, release_bit s h, add_char_refines (to_char s k.shift_pressed k.caps_lock))

  pub handler-IsValid : (s : ℕ) → IsValid (keyboard_handler s k)
  unfolding keyboard_handler
  handler-IsValid s = ground (arith, add_char-IsValid v (to_char s k.shift_pressed k.caps_lock))

  pub getchar_refines :
      let (c, k') = keyboard_getchar k in
      (c, abstract_of k') ≡ Queue.read (contents k) k.shift_pressed k.caps_lock
  unfolding Queue.read
  getchar_refines = elim (Bool-cases (waiting k == 0)) [
    | inl none_left ↦ let e : waiting k ≡ 0 = ground arith in rw (getchar-empty v e) (rw e refl)
    | inr some_left ↦ rw (getchar-contents v (ground arith)) (ground (arith, getchar_modifiers k))
  ]

  available_refines : keyboard_available k ≡ not (Queue.is_empty (contents k))
  unfolding keyboard_available Queue.is_empty
  available_refines = elim (Bool-cases (waiting k == 0)) [
    | inl none_left ↦ let e : waiting k ≡ 0 = ground arith in rw e (ground arith)
    | inr some_left ↦ rw (getchar-contents v (ground arith)) (ground arith)
  ]

pub step-IsValid : (e : Event) {k : Keyboard} → IsValid k → IsValid (step e k).1
unfolding step keyboard_clear_buffer
step-IsValid (scan s) v = handler-IsValid v s
step-IsValid getchar v = getchar-IsValid v
step-IsValid available v = v
step-IsValid clear v = omega arith

pub step_refines :
    (e : Event) {k : Keyboard}
    → IsByteEvent e
    → IsValid k
    → let (r, k') = step e k in (r, abstract_of k') ≡ Queue.step e (abstract_of k)
unfolding step Queue.step keyboard_clear_buffer
step_refines (scan s) b v = rw (handler_refines v s b)
step_refines getchar b v = ap (λ p. (char p.0, p.1)) (getchar_refines v)
step_refines available b v = rw (available_refines v)
step_refines clear b v = refl

-- From a valid driver state, every sequence of scancode interrupts (of byte scancodes) and calls of
-- `keyboard_getchar`, `keyboard_available` and `keyboard_clear_buffer` gives the replies of a
-- first-in first-out queue of at most 255 characters that starts with the characters of the ring.
pub run_refines :
    (es : List Event) {k : Keyboard}
    → All IsByteEvent es
    → IsValid k
    → run es k ≡ Queue.run es (abstract_of k)
unfolding run Queue.run
run_refines [] b v = refl
run_refines (e ∷ es) (b, bs) v = rw (run_refines es bs (step-IsValid e v), ← step_refines e b v)
