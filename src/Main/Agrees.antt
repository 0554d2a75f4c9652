-- ===== src/Main/Agrees.antt =====
-- kernel/kernel.cpp: one step of the loop of `kernel_main`, or one interrupt, against the session.
use first_os_build.Prelude.{
  ℕ, suc, ◌+◌, ◌-◌, ◌*◌, ◌<◌, ◌≡◌, ◌⊎◌, refl, Bool, List, [], ◌∷◌, ◌++◌, Bytes, length, arith, ap,
  ap₂, ◌∙◌, sym, subst, All, ◌==◌, if◌then◌else◌, Bool-cases, inl, inr,
}
use first_os_build.Editor.Process.{Works, rest, with_queue}
use first_os_build.Editor.Moments.{Moment, read, play, keys_of}
use first_os_build.Editor.Session
use first_os_build.Editor.Session.{Session}
use first_os_build.Editor.Schedule.{round-to_come}
use first_os_build.Interrupts.{Interrupts}
use first_os_build.Keyboard.{Keyboard, keyboard_handler}
use first_os_build.Keyboard.Interleave.{Knows, Sound, access-Sound, interrupt-Sound, Explains}
use first_os_build.Keyboard.Layout.{Typable, read-Typable}
use first_os_build.Keyboard.Queue
use first_os_build.Keyboard.Queue.{Queue, getchar, char, nothing, flag}
use first_os_build.Keyboard.Reader.{
  Reader, idle, compares, found, holds, checks, wants_char, access,
}
use first_os_build.Keyboard.Refine.{abstract_of}
use first_os_build.Keyboard.Ring.{IsValid}
use first_os_build.Main.{Machine, desk_of}
use first_os_build.Main.Loop.{typed}
use first_os_build.Main.Steps.{Phase, reads, handles, halted, Action, key, go, settled}

-- The session once a round has its character.
abbrev pub answered : ℕ → Session → Session
answered c s = if c == 0 then s else Session.apply c s

-- The machine agrees with the session, with room for `n` more rounds. Behind `keyboard_getchar` the session is
-- ahead by the character that is read.
abbrev pub Agrees : ℕ → ℕ → Phase → Machine → Session → Type 0
Agrees n fuel (reads r) a s = Works n fuel (desk_of a) s × Knows r a.interrupts.keyboard
Agrees n fuel (handles c) a s =
    (s0 : Session) × Works (suc n) fuel (desk_of a) s0 × ((c ≡ 0) ⊎ Typable c) × (s ≡ answered c s0)
Agrees n fuel halted a s = ⊥

-- How many steps it takes to read the characters that wait, and to handle them.
abbrev pub left : Phase → Session → ℕ
left (reads idle) s = 5 * length s.queue.chars
left (reads (compares i)) s = 5 * length s.queue.chars - 1
left (reads found) s = 5 * length s.queue.chars - 2
left (reads (holds c)) s = 5 * length s.queue.chars - 3
left (reads (checks i)) s = 5 * length s.queue.chars + 1
left (handles c) s = 5 * length s.queue.chars + 1
left halted s = 0

-- Nothing waits to be read, and nothing that is read to be handled.
abbrev pub IsDone : Phase → Session → Type 0
IsDone (handles c) s = (length s.queue.chars ≡ 0) × (c ≡ 0)
IsDone (reads r) s = length s.queue.chars ≡ 0
IsDone halted s = ⊥

abbrev pub Advances : Action → Phase → Session → Phase → Session → Type 0
Advances (key scancode) p s p' s' = Unit {0}
Advances go p s p' s' = IsDone p' s' ⊎ (left p' s' < left p s)

abbrev pub keys_in : List Action → List ℕ
keys_in [] = []
keys_in (key scancode ∷ acts) = scancode ∷ keys_in acts
keys_in (go ∷ acts) = keys_in acts

pub keys_in-cons :
    (act : Action) (acts : List Action) → keys_in (act ∷ acts) ≡ keys_in (act ∷ []) ++ keys_in acts
keys_in-cons (key scancode) acts = refl
keys_in-cons go acts = refl

abbrev pub IsByteAction : Action → Type 0
IsByteAction (key scancode) = scancode < 256
IsByteAction go = Unit {0}

-- A key does not touch what a round has read.
answered-pressed :
    (c scancode : ℕ) (s : Session)
    → let t = answered c s in
      record t { queue = Queue.press scancode t.queue }
      ≡ answered c (record s { queue = Queue.press scancode s.queue })
unfolding Session.apply
answered-pressed c scancode s = elim (Bool-cases (c == 0)) [
  | inl no_c ↦ rw no_c refl
  | inr some_c ↦ rw some_c refl
]

-- A key: the ring and the queue have its character, and a read that is under way is not disturbed.
pub key-Agrees :
    (n fuel scancode : ℕ) (p : Phase) (a : Machine) (i : Interrupts) (s : Session)
    → scancode < 256
    → Agrees n fuel p a s
    → Agrees n fuel p
        (record a {
          interrupts = record i { keyboard = keyboard_handler scancode a.interrupts.keyboard };
        })
        (record s { queue = Queue.press scancode s.queue })
key-Agrees n fuel scancode (reads r) a i s byte (w, knows) =
    (typed n fuel (desk_of a) s scancode byte w, (interrupt-Sound scancode r byte w.ring knows).1)
key-Agrees n fuel scancode (handles c) a i s byte (s0, w, is_char, same) = (
  record s0 { queue = Queue.press scancode s0.queue },
  typed (suc n) fuel (desk_of a) s0 scancode byte w,
  is_char,
  ap (λ (t : Session). record t { queue = Queue.press scancode t.queue }) same
      ∙ answered-pressed c scancode s0,
)
key-Agrees n fuel scancode halted a i s byte h = absurd h

nothing_read :
    (cs : Bytes) (shift caps : Bool) (c : ℕ) (q : Queue)
    → length cs ≡ 0
    → Queue.read cs shift caps ≡ (c, q)
    → c ≡ 0
unfolding Queue.read
nothing_read [] shift caps c q h e = ap (λ (p : ℕ × Queue). p.0) (sym e)
nothing_read (x ∷ cs) shift caps c q h e = absurd (omega arith)

-- A read that is settled: the round has its character.
read-Agrees :
    (n fuel c : ℕ) (k : Keyboard) (a : Machine) (s : Session)
    → IsValid k
    → Explains ((getchar, char c) ∷ []) (abstract_of a.interrupts.keyboard) (abstract_of k)
    → Works (suc n) fuel (desk_of a) s
    → Agrees n fuel
        (handles c)
        (record a { interrupts = record a.interrupts { keyboard = k } })
        (Session.round s)
      × (length (Session.round s).queue.chars ≡ length s.queue.chars - 1)
      × (length s.queue.chars ≡ 0 → c ≡ 0)
unfolding Queue.step Session.round
read-Agrees n fuel c k a s v (reply, left) w =
    let q = abstract_of a.interrupts.keyboard in
    let read : Queue.read q.chars q.shift q.caps ≡ (c, abstract_of k) =
      ap₂ (λ x y. (x, y)) (cc) left in
    let same : Queue.read s.queue.chars s.queue.shift s.queue.caps ≡ (c, abstract_of k) =
      ap (λ (q : Queue). Queue.read q.chars q.shift q.caps) (sym w.queue) ∙ read in
    let (is_char, typable) =
      subst (λ (p : ℕ × Queue). ((p.0 ≡ 0) ⊎ Typable p.0) × All Typable p.1.chars) same
        (read-Typable s.queue.chars s.queue.shift s.queue.caps w.typable) in
    (
      (
        record s { queue = abstract_of k },
        with_queue (suc n) fuel (desk_of a) s k (abstract_of k) v refl typable w,
        is_char,
        rw same refl,
      ),
      (round-to_come [] s.queue.chars s).1,
      λ none_waits. nothing_read s.queue.chars s.queue.shift s.queue.caps c _ none_waits same,
    )

-- One access.
pub access-Agrees :
    (n fuel : ℕ) (r : Reader) (a : Machine) (s : Session)
    → Agrees (suc n) fuel (reads r) a s
    → let (t, r', k) = access wants_char r a.interrupts.keyboard in
      (ms : List Moment) × (keys_of ms ≡ [])
      × Agrees n fuel
          (settled t r')
          (record a { interrupts = record a.interrupts { keyboard = k } })
          (play ms s)
      × Advances go (reads r) s (settled t r') (play ms s)
unfolding access settled play
access-Agrees n fuel idle a s (w, h) = ([], refl, (rest n fuel _ s w, refl), ground arith)
access-Agrees n fuel (compares i) a s (w, h) =
    let k = a.interrupts.keyboard in
    elim (Bool-cases (i == k.buffer_end)) [
      | inl same ↦
          let none_left : access wants_char (compares i) k ≡ ((getchar, char 0) ∷ [], idle, k) =
            rw same in
          let (v, known, t) =
            subst (Sound k) none_left (access-Sound wants_char (compares i) w.ring h) in
          let (agrees, fewer, none_read) = read-Agrees n fuel 0 k a s v t w in
          rw same (read ∷ [], refl, agrees, ground (arith, fewer))
      | inr other ↦ rw other ([], refl, (rest n fuel _ s w, ground arith), ground arith)
    ]
access-Agrees n fuel found a s (w, h) = ([], refl, (rest n fuel _ s w, (h, refl)), ground arith)
access-Agrees n fuel (holds c) a s (w, h) =
    let (v, known, t) = access-Sound wants_char (holds c) w.ring h in
    let (agrees, fewer, none_read) = read-Agrees n fuel c _ a s v t w in
    (read ∷ [], refl, agrees, ground (arith, fewer, none_read))
access-Agrees n fuel (checks i) a s (w, h) = ([], refl, (rest n fuel _ s w, tt), ground arith)

-- Less room.
pub weaken-Agrees :
    (n fuel : ℕ) (p : Phase) (a : Machine) (s : Session)
    → Agrees (suc n) fuel p a s
    → Agrees n fuel p a s
weaken-Agrees n fuel (reads r) a s (w, h) = (rest n fuel _ s w, h)
weaken-Agrees n fuel (handles c) a s (s0, w, is_char, same) =
    (s0, rest (suc n) fuel _ s0 w, is_char, same)
weaken-Agrees n fuel halted a s h = absurd h
