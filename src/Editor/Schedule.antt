-- ===== src/Editor/Schedule.antt =====
-- The session of Editor/Session.antt does not depend on when the keys come between the rounds.
use first_os_build.Prelude.{
  ℕ, zero, suc, ◌+◌, ◌-◌, ◌≤◌, ◌<◌, ◌≡◌, refl, Bool, List, [], ◌∷◌, ◌++◌, Bytes, length,
  length-append, replicate, arith, ◌==◌, ap, ◌∙◌, sym, Bool-cases, inl, inr, append-nil,
  append_assoc,
}
use first_os_build.Editor.Session
use first_os_build.Editor.Session.{Session}
use first_os_build.Editor.Text
use first_os_build.Editor.Text.{Text}
use first_os_build.Keyboard.Queue
use first_os_build.Keyboard.Queue.{Queue}

abbrev pub modifiers : Bool → Bool → Queue
modifiers shift caps = record { chars = []; shift = shift; caps = caps }

-- The characters that scancodes give, from a state of the modifiers on.
unfoldable pub typed : List ℕ → Bool → Bool → Bytes
typed [] shift caps = []
typed (scancode ∷ more) shift caps =
    let q = Queue.press scancode (modifiers shift caps) in q.chars ++ typed more q.shift q.caps

abbrev pub all_of : List (List ℕ) → List ℕ
all_of [] = []
all_of (scancodes ∷ rounds) = scancodes ++ all_of rounds

keys-append :
    (cols : ℕ) (xs ys : Bytes) (t : Text)
    → Text.keys cols (xs ++ ys) t ≡ Text.keys cols ys (Text.keys cols xs t)
unfolding Text.keys
keys-append cols [] ys t = refl
keys-append cols (x ∷ xs) ys t = keys-append cols xs ys (Text.key cols x t)

press-append :
    (scancode : ℕ) (q : Queue)
    → length q.chars < 255
    → let p = Queue.press scancode (modifiers q.shift q.caps) in
      (Queue.press scancode q
        ≡ record { chars = q.chars ++ p.chars; shift = p.shift; caps = p.caps })
      × (length p.chars ≤ 1)
unfolding Queue.press Queue.type_in
press-append scancode q room = (ground (arith, append-nil q.chars), ground arith)

-- The characters that wait once the keys `scancodes` have come, and those that more keys will give.
pub scan-typed :
    (scancodes more : List ℕ) (q : Queue)
    → length q.chars + length scancodes ≤ 255
    → let q' = Session.scan scancodes q in
      (q'.chars ++ typed more q'.shift q'.caps
        ≡ q.chars ++ typed (scancodes ++ more) q.shift q.caps)
      × (length q'.chars ≤ length q.chars + length scancodes)
unfolding Session.scan typed
scan-typed [] more q room = (refl, omega arith)
scan-typed (scancode ∷ scancodes) more q room =
    let (pressed, one) = press-append scancode q (omega arith) in
    let p = Queue.press scancode (modifiers q.shift q.caps) in
    let size = ap (λ (r : Queue). length r.chars) pressed in
    let counted = length-append q.chars p.chars in
    let (same, few) =
      scan-typed scancodes more (Queue.press scancode q) (omega (arith, size, counted, one)) in
    (
      same
          ∙ ap (λ (r : Queue). r.chars ++ typed (scancodes ++ more) r.shift r.caps) pressed
          ∙ append_assoc q.chars p.chars (typed (scancodes ++ more) p.shift p.caps),
      omega (arith, few, size, counted, one),
    )

-- What is still to be read, as a text.
abbrev pub to_come : List ℕ → Session → Text
to_come scancodes s =
    Text.keys 80 (s.queue.chars ++ typed scancodes s.queue.shift s.queue.caps) s.text

-- A round takes the oldest character from the queue and leaves what will become of the text.
pub round-to_come :
    (more : List ℕ) (cs : Bytes) (s : Session)
    → let s = record s { queue = record s.queue { chars = cs } } in
      (to_come more (Session.round s) ≡ to_come more s)
      × (length (Session.round s).queue.chars ≡ length cs - 1)
      × ((Session.round s).queue.shift ≡ s.queue.shift)
      × ((Session.round s).queue.caps ≡ s.queue.caps)
unfolding Session.round Session.apply Text.keys Text.key Queue.read
round-to_come more [] s = (refl, omega arith, refl, refl)
round-to_come more (c ∷ cs) s = elim (Bool-cases (c == 0)) [
  | inl nothing ↦
      let at : 0 ≡ c = ground arith in
      let cs' = cs ++ typed more s.queue.shift s.queue.caps in
      rw nothing (ap (λ x. Text.keys 80 cs' (Text.key 80 x s.text)) at, omega arith, refl, refl)
  | inr some_c ↦ rw some_c (refl, omega arith, refl, refl)
]

-- Keys that come in any rounds, at most 255 of them: what will become of the text is what the same keys
-- give when they all come before the first round.
run-to_come :
    (rounds : List (List ℕ)) (s : Session)
    → length s.queue.chars + length (all_of rounds) ≤ 255
    → (to_come [] (Session.run rounds s) ≡ to_come (all_of rounds) s)
unfolding Session.run
run-to_come [] s room = refl
run-to_come (scancodes ∷ rounds) s room =
    let q = Session.scan scancodes s.queue in
    let (same, few) =
      scan-typed scancodes (all_of rounds) s.queue
        (omega (arith, length-append scancodes (all_of rounds))) in
    let (kept, fewer, shift, caps) =
      round-to_come (all_of rounds) q.chars (record s { queue = q }) in
    run-to_come rounds (Session.round (record s { queue = q }))
      (omega (arith, few, fewer, length-append scancodes (all_of rounds)))
    ∙ kept
    ∙ ap (λ cs. Text.keys 80 cs s.text) same

pub none_left : (cs : Bytes) → length cs ≤ 0 → cs ≡ []
none_left [] h = refl
none_left (c ∷ cs) h = absurd (omega arith)

-- Rounds without keys empty the queue.
run-quiet :
    (n : ℕ) (s : Session)
    → length s.queue.chars ≤ n
    → (Session.run (replicate n []) s).queue.chars ≡ []
unfolding Session.run Session.scan
run-quiet zero s few = none_left s.queue.chars few
run-quiet (suc n) s few =
    let (kept, fewer, shift, caps) = round-to_come [] s.queue.chars s in
    run-quiet n (Session.round s) (omega (arith, fewer))

run-append :
    (xs ys : List (List ℕ)) (s : Session)
    → Session.run (xs ++ ys) s ≡ Session.run ys (Session.run xs s)
unfolding Session.run
run-append [] ys s = refl
run-append (x ∷ xs) ys s =
    run-append xs ys (Session.round (record s { queue = Session.scan x s.queue }))

length-run :
    (rounds : List (List ℕ)) (s : Session)
    → length s.queue.chars + length (all_of rounds) ≤ 255
    → length (Session.run rounds s).queue.chars ≤ length s.queue.chars + length (all_of rounds)
unfolding Session.run
length-run [] s room = omega arith
length-run (scancodes ∷ rounds) s room =
    let q = Session.scan scancodes s.queue in
    let split = length-append scancodes (all_of rounds) in
    let (same, few) = scan-typed scancodes (all_of rounds) s.queue (omega (arith, split)) in
    let (kept, fewer, shift, caps) =
      round-to_come (all_of rounds) q.chars (record s { queue = q }) in
    omega (
      arith,
      split,
      few,
      fewer,
      length-run rounds (Session.round (record s { queue = q })) (omega (arith, few, fewer, split)),
    )

all_of-quiet : (rounds : List (List ℕ)) (n : ℕ) → all_of (rounds ++ replicate n []) ≡ all_of rounds
all_of-quiet [] zero = refl
all_of-quiet [] (suc n) = all_of-quiet [] n
all_of-quiet (scancodes ∷ rounds) n = ap (λ more. scancodes ++ more) (all_of-quiet rounds n)

-- At most 255 keys in any rounds, then enough rounds without keys: the queue is empty, and the text is
-- that of all the characters in their order, whatever the rounds were.
pub run-typed :
    (rounds : List (List ℕ)) (n : ℕ) (s : Session)
    → length s.queue.chars + length (all_of rounds) ≤ 255
    → length s.queue.chars + length (all_of rounds) ≤ n
    → let s' = Session.run (rounds ++ replicate n []) s in
      (s'.queue.chars ≡ []) × (s'.text ≡ to_come (all_of rounds) s)
unfolding Text.keys typed
run-typed rounds n s room enough =
    let s' = Session.run (rounds ++ replicate n []) s in
    let silent = all_of-quiet rounds n in
    let empty : s'.queue.chars ≡ [] =
      ap (λ (t : Session). t.queue.chars) (run-append rounds (replicate n []) s)
      ∙ run-quiet n (Session.run rounds s) (omega (arith, length-run rounds s room)) in
    (
      empty,
      ap (λ cs. Text.keys 80 (cs ++ []) s'.text) (sym empty)
          ∙ run-to_come (rounds ++ replicate n []) s
              (omega (arith, ap (λ (xs : List ℕ). length xs) silent))
          ∙ ap (λ keys. to_come keys s) silent,
    )
