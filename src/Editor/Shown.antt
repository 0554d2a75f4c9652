-- ===== src/Editor/Shown.antt =====
-- The page of the session of Editor/Session.antt shows its text.
use first_os_build.Prelude.{
  ℕ, ◌+◌, ◌<◌, ◌≤◌, ◌≡◌, ◌≢◌, ◌⊎◌, refl, false, Bool, List, [], ◌∷◌, ◌++◌, Bytes, length, arith,
  ◌==◌, ap, ◌∙◌, sym, subst, inl, inr, All, All-append, append-nil,
}
use first_os_build.Editor.Moments.{Moment, pressed, read, keys_of, play}
use first_os_build.Editor.Page.{page}
use first_os_build.Editor.Schedule.{modifiers, typed, scan-typed, round-to_come}
use first_os_build.Editor.Text.{Text}
use first_os_build.Editor.Session
use first_os_build.Editor.Session.{Session, draw}
use first_os_build.Keyboard.Layout.{is_typable, Typable}
use first_os_build.Keyboard.Queue
use first_os_build.Keyboard.Queue.{Queue}
use first_os_build.Terminal.View
use first_os_build.Terminal.View.{View}

-- The cursor stands on the page.
abbrev pub IsInside : View → Type 0
IsInside v = (v.row < 25) × (v.column < 80)

type_text-IsInside :
    (color : ℕ) (cs : Bytes) (v : View) → IsInside v → IsInside (View.type_text color cs v)
unfolding View.type_text View.type_char View.put View.new_line
type_text-IsInside color [] v h = h
type_text-IsInside color (c ∷ cs) v h =
    type_text-IsInside color cs (View.type_char color c v) (ground arith)

draw-IsInside :
    (untouched : Bool) (cs : Bytes) (v : View) → IsInside v → IsInside (draw untouched cs v)
unfolding draw
draw-IsInside untouched cs v h = type_text-IsInside 7 (page untouched cs) _ h

-- The page is that of the text, drawn from some place of the cursor.
abbrev pub IsDrawn : Session → Type 0
IsDrawn s = (v : View) × IsInside v × (s.view ≡ draw s.untouched s.text.chars v)

-- The characters that wait and those that keys will give.
abbrev pub coming : List ℕ → Queue → Bytes
coming scancodes q = q.chars ++ typed scancodes q.shift q.caps

abbrev AreSome : Bytes → Type 0
AreSome = All (λ c. c ≢ 0)

-- A round draws the page if a character waits.
round-IsDrawn :
    (more : List ℕ) (cs : Bytes) (s : Session)
    → let s = record s { queue = record s.queue { chars = cs } } in
      IsInside s.view
      → AreSome (coming more s.queue)
      → IsInside (Session.round s).view
        × AreSome (coming more (Session.round s).queue)
        × (IsDrawn (Session.round s) ⊎ (Session.round s ≡ s))
unfolding Session.round Session.apply Queue.read
round-IsDrawn more [] s h some_c = (h, some_c, inr refl)
round-IsDrawn more (c ∷ cs) s h (this, others) =
    let test : (c == 0) ≡ false = ground arith in
    rw test (draw-IsInside _ _ s.view h, others, inl (s.view, h, refl))

-- Neither the text nor the page is another.
record Unchanged (s' s : Session) : Type 0 where
  view : s'.view ≡ s.view
  text : s'.text ≡ s.text
  untouched : s'.untouched ≡ s.untouched

Unchanged-IsDrawn : (s' s : Session) → Unchanged s' s → IsDrawn s → IsDrawn s'
Unchanged-IsDrawn s' s same (v, inside, drawn) = (
  v,
  inside,
  same.view
      ∙ drawn
      ∙ ap (λ u. draw u s.text.chars v) (sym same.untouched)
      ∙ ap (λ (t : Text). draw s'.untouched t.chars v) (sym same.text),
)

play-Unchanged :
    (ms : List Moment) (s : Session)
    → length s.queue.chars + length (keys_of ms) ≤ 255
    → IsInside s.view
    → AreSome (coming (keys_of ms) s.queue)
    → (play ms s).queue.chars ≡ []
    → IsDrawn (play ms s) ⊎ ((coming (keys_of ms) s.queue ≡ []) × Unchanged (play ms s) s)
unfolding play typed Session.scan
play-Unchanged [] s room inside some_c empty =
    inr (append-nil s.queue.chars ∙ empty, record { view = refl; text = refl; untouched = refl })
play-Unchanged (pressed scancode ∷ ms) s room inside some_c empty =
    let q = Queue.press scancode s.queue in
    let (same, few) = scan-typed (scancode ∷ []) (keys_of ms) s.queue (omega arith) in
    elim (play-Unchanged ms (record s { queue = q }) (omega (arith, few)) inside
      (subst AreSome (sym same) some_c) empty) [
        | inl drawn ↦ inl drawn
        | inr (none_comes, kept) ↦ inr (
          sym same ∙ none_comes,
          record { view = kept.view; text = kept.text; untouched = kept.untouched },
        )
      ]
play-Unchanged (read ∷ ms) s room inside some_c empty =
    let keys = keys_of ms in
    let (kept, fewer, shift, caps) = round-to_come keys s.queue.chars s in
    let (inside', some_c', drawn) = round-IsDrawn keys s.queue.chars s inside some_c in
    elim (play-Unchanged ms (Session.round s) (omega (arith, fewer)) inside' some_c' empty) [
      | inl drawn' ↦ inl drawn'
      | inr (none_comes, same) ↦ elim drawn [
        | inl now ↦ inl (Unchanged-IsDrawn (play ms (Session.round s)) (Session.round s) same now)
        | inr still ↦ inr (
          subst (λ (t : Session). coming keys t.queue ≡ []) still none_comes,
          subst (Unchanged (play ms (Session.round s))) still same,
        )
      ]
    ]

typed-AreSome : (scancodes : List ℕ) (shift caps : Bool) → AreSome (typed scancodes shift caps)
unfolding typed Queue.press Queue.type_in
typed-AreSome [] shift caps = tt
typed-AreSome (scancode ∷ more) shift caps =
    let q = Queue.press scancode (modifiers shift caps) in
    All-append (λ c. c ≢ 0) q.chars (typed more q.shift q.caps) (ground arith)
      (typed-AreSome more q.shift q.caps)

Typable-AreSome : (cs : Bytes) → All Typable cs → AreSome cs
unfolding is_typable
Typable-AreSome [] h = tt
Typable-AreSome (c ∷ cs) (typable, more) = (ground arith, Typable-AreSome cs more)

-- Once all characters are read, the page is that of the text, unless there was no character: then it
-- is as before.
abbrev pub IsShown : List ℕ → Session → Session → Type 0
IsShown scancodes s s' = IsDrawn s' ⊎ ((coming scancodes s.queue ≡ []) × (s'.view ≡ s.view))

pub play-IsShown :
    (ms : List Moment) (s : Session)
    → length s.queue.chars + length (keys_of ms) ≤ 255
    → IsInside s.view
    → All Typable s.queue.chars
    → (play ms s).queue.chars ≡ []
    → IsShown (keys_of ms) s (play ms s)
play-IsShown ms s room inside typable empty =
    elim (play-Unchanged ms s room inside
      (All-append (λ c. c ≢ 0) s.queue.chars _ (Typable-AreSome s.queue.chars typable)
        (typed-AreSome (keys_of ms) s.queue.shift s.queue.caps))
      empty) [ inl drawn ↦ inl drawn | inr (none_comes, same) ↦ inr (none_comes, same.view) ]
