-- ===== src/Keyboard/Layout.antt =====
-- kernel/keyboard.cpp: the characters that the two layout tables can produce.
use first_os_build.Prelude.{
  ℕ, ◌<◌, ◌≡◌, ◌≢◌, ◌⊎◌, inl, inr, refl, Bool, true, false, not, ◌&&◌, ◌||◌, List, [], ◌∷◌, arith,
  every_below, every_below-at, Bytes, leb, ltb, ◌==◌, All, All-append,
}
use first_os_build.Keyboard.{Keyboard, to_char, is_letter}
use first_os_build.Keyboard.Queue
use first_os_build.Keyboard.Queue.{
  Queue, Event, scan, getchar, available, clear, Reply, nothing, char, flag,
}
use first_os_build.Keyboard.Ring.{IsValid, contents}
use first_os_build.Keyboard.Refine.{run, run_refines, IsByteEvent, abstract_of}

-- Backspace, tab, newline and the printable characters.
unfoldable pub is_typable : ℕ → Bool
is_typable c = c == 8 || c == 9 || c == 10 || (leb 32 c && ltb c 127)

abbrev pub Typable : ℕ → Type 0
Typable c = is_typable c ≡ true

abbrev same_letter : ℕ → Bool
same_letter s =
    not (is_letter (to_char s false false)) || (to_char s true true == to_char s false false)

typable_table :
    (shift caps : Bool)
    → every_below 256 (λ s. to_char s shift caps == 0 || is_typable (to_char s shift caps)) ≡ true
unfolding every_below to_char is_typable
typable_table true true = refl
typable_table true false = refl
typable_table false true = refl
typable_table false false = refl

-- A key gives no character or a typable one.
pub to_char-Typable :
    (s : ℕ) (shift caps : Bool)
    → s < 256
    → to_char s shift caps ≢ 0
    → Typable (to_char s shift caps)
to_char-Typable s shift caps h ne =
    ground (arith, every_below-at 256 _ (typable_table shift caps) s h)

same_letter_table : every_below 256 same_letter ≡ true
unfolding every_below to_char is_letter
same_letter_table = refl

-- For a byte scancode of a letter, shift and caps lock together give what neither gives.
pub shift-caps_cancel :
    (s : ℕ)
    → s < 256
    → is_letter (to_char s false false) ≡ true
    → to_char s true true ≡ to_char s false false
shift-caps_cancel s h l = ground (arith, every_below-at 256 _ same_letter_table s h)

-- A key that is no letter ignores caps lock.
pub to_char-caps :
    (s : ℕ) (shift : Bool)
    → is_letter (to_char s shift false) ≡ false
    → to_char s shift true ≡ to_char s shift false
unfolding to_char
to_char-caps s shift h = ground arith

type_in-Typable :
    (c : ℕ) (q : Queue)
    → (c ≢ 0 → Typable c)
    → All Typable q.chars
    → All Typable (Queue.type_in c q).chars
unfolding Queue.type_in
type_in-Typable c q h a = ground (arith, All-append Typable q.chars (c ∷ []) a)

pub press-Typable :
    (s : ℕ) (q : Queue) → s < 256 → All Typable q.chars → All Typable (Queue.press s q).chars
unfolding Queue.press
press-Typable s q h a =
    ground
      (arith, type_in-Typable (to_char s q.shift q.caps) q (to_char-Typable s q.shift q.caps h) a)

-- What the editor reads: 0 or a typable character.
abbrev pub IsTyped : Reply → Type 0
IsTyped (char c) = (c ≡ 0) ⊎ Typable c
IsTyped _ = Unit

pub read-Typable :
    (cs : Bytes) (shift caps : Bool)
    → All Typable cs
    → ((Queue.read cs shift caps).0 ≡ 0 ⊎ Typable (Queue.read cs shift caps).0)
      × All Typable (Queue.read cs shift caps).1.chars
unfolding Queue.read
read-Typable [] shift caps a = (inl refl, tt)
read-Typable (c ∷ cs) shift caps (t, a) = (inr t, a)

queue-IsTyped :
    (es : List Event) (q : Queue)
    → All IsByteEvent es
    → All Typable q.chars
    → All IsTyped (Queue.run es q)
unfolding Queue.run
queue-IsTyped [] q b a = tt
queue-IsTyped (scan s ∷ es) q (b, bs) a =
    (tt, queue-IsTyped es (Queue.press s q) bs (press-Typable s q b a))
queue-IsTyped (getchar ∷ es) q (b, bs) a =
    let (typed, rest) = read-Typable q.chars q.shift q.caps a in
    (typed, queue-IsTyped es (Queue.read q.chars q.shift q.caps).1 bs rest)
queue-IsTyped (available ∷ es) q (b, bs) a = (tt, queue-IsTyped es q bs a)
queue-IsTyped (clear ∷ es) q (b, bs) a = (tt, queue-IsTyped es (record q { chars = [] }) bs tt)

-- From a valid driver state whose ring holds typable characters, every character that a sequence of
-- byte scancodes and calls gives is 0 or typable.
pub run-IsTyped :
    (es : List Event) {k : Keyboard}
    → All IsByteEvent es
    → IsValid k
    → All Typable (contents k)
    → All IsTyped (run es k)
run-IsTyped es {k} b v a = rw (run_refines es b v) (queue-IsTyped es (abstract_of k) b a)
