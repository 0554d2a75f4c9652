-- ===== src/Main/Typed.antt =====
-- kernel/kernel.cpp: the loop of `kernel_main`, that reads and handles all keys, wherever their interrupts come.
use mathlib.Core.Option.{Option}
use first_os_build.Prelude.{
  ℕ, zero, suc, replicate, ◌+◌, ◌*◌, ◌≤◌, ◌<◌, ◌≡◌, ◌⊎◌, refl, List, [], ◌∷◌, ◌++◌, Bytes, length,
  arith, Returns, returns, fun_ext, append-nil, ◌>>=◌, ap, ap₂, ◌∙◌, sym, subst, All, inl, inr,
}
use first_os_build.Prelude.Maybe
use first_os_build.Editor.Process.{Works, rest}
use first_os_build.Editor.Moments.{
  Moment, play, keys_of, play-append, keys_of-append, length-play, play-typed,
}
use first_os_build.Editor.Session.{Session}
use first_os_build.Editor.Schedule.{to_come}
use first_os_build.Editor.Shown.{IsShown, IsInside, play-IsShown}
use first_os_build.Keyboard.Layout.{Typable}
use first_os_build.Keyboard.Reader.{idle, compares, found, holds, checks}
use first_os_build.Main.{Machine, desk_of}
use first_os_build.Main.Anytime.{step-Agrees, steps_agree}
use first_os_build.Main.Steps.{Phase, reads, handles, halted, Action, go, step, steps}
use first_os_build.Memory.{Ptr, Memory}
use first_os_build.Main.Agrees.{Agrees, left, IsDone, keys_in, IsByteAction}

at_rest :
    (n fuel : ℕ) (p : Phase) (a : Machine) (s : Session)
    → Agrees n fuel p a s
    → left p s ≡ 0
    → IsDone p s
at_rest n fuel (reads idle) a s h e = omega arith
at_rest n fuel (reads (compares i)) a s h e = omega arith
at_rest n fuel (reads found) a s h e = omega arith
at_rest n fuel (reads (holds c)) a s h e = omega arith
at_rest n fuel (reads (checks i)) a s h e = absurd (omega arith)
at_rest n fuel (handles c) a s h e = absurd (omega arith)
at_rest n fuel halted a s h e = h

left-IsDone : (p : Phase) (s : Session) → IsDone p s → left p s ≤ 1
left-IsDone (reads idle) s h = omega arith
left-IsDone (reads (compares i)) s h = omega arith
left-IsDone (reads found) s h = omega arith
left-IsDone (reads (holds c)) s h = omega arith
left-IsDone (reads (checks i)) s h = omega arith
left-IsDone (handles c) s h = omega arith
left-IsDone halted s h = absurd h

-- A step takes one of the steps that are left.
one_less :
    (m n fuel : ℕ) (p p' : Phase) (a' : Machine) (s s' : Session)
    → IsDone p s ⊎ (left p s < suc m)
    → Agrees n fuel p' a' s'
    → IsDone p' s' ⊎ (left p' s' < left p s)
    → IsDone p' s' ⊎ (left p' s' < m)
one_less m n fuel p p' a' s s' h agrees (inl done) = inl done
one_less m n fuel p p' a' s s' (inl done) agrees (inr fewer) =
    inl (at_rest n fuel p' a' s' agrees (omega (arith, left-IsDone p s done)))
one_less m n fuel p p' a' s s' (inr few) agrees (inr fewer) = inr (omega arith)

-- No character waits, the text is that of all the characters, and the page shows it.
abbrev pub IsHandled : List ℕ → Session → Session → Type 0
IsHandled keys s s' = (s'.queue.chars ≡ []) × (s'.text ≡ to_come keys s) × IsShown keys s s'

handled :
    (ms : List Moment) (keys : List ℕ) (s : Session)
    → length s.queue.chars + length keys ≤ 255
    → keys_of ms ≡ keys
    → IsInside s.view
    → All Typable s.queue.chars
    → length (play ms s).queue.chars ≡ 0
    → IsHandled keys s (play ms s)
handled ms keys s room same inside typable done =
    let (empty, text) = play-typed ms s (rw same room) done in
    (
      empty,
      text ∙ ap (λ k. to_come k s) same,
      subst (λ k. IsShown k s (play ms s)) same
          (play-IsShown ms s (rw same room) inside typable empty),
    )

-- At rest: the desk works as the session, whose text is that of all keys.
typed_at :
    (n fuel : ℕ) (ms : List Moment) (keys : List ℕ) (p : Phase) (a : Machine) (s : Session)
    → length s.queue.chars + length keys ≤ 255
    → keys_of ms ≡ keys
    → IsInside s.view
    → All Typable s.queue.chars
    → Agrees n fuel p a (play ms s)
    → IsDone p (play ms s)
    → (s' : Session) × Works n fuel (desk_of a) s' × IsHandled keys s s'
typed_at n fuel ms keys (reads r) a s room same inside typable (w, known) done =
    (play ms s, w, handled ms keys s room same inside typable done)
typed_at n fuel ms keys (handles c) a s room same inside typable (s0, w, is_char, ahead)
      (done, no_c) =
    let still : play ms s ≡ s0 = ahead ∙ rw no_c refl in
    (
      play ms s,
      subst (Works n fuel (desk_of a)) (sym still) (rest n fuel (desk_of a) s0 w),
      handled ms keys s room same inside typable done,
    )
typed_at n fuel ms keys halted a s room same inside typable agrees done = absurd done

left_few : (p : Phase) (s : Session) → left p s ≤ 5 * length s.queue.chars + 1
left_few (reads idle) s = omega arith
left_few (reads (compares i)) s = omega arith
left_few (reads found) s = omega arith
left_few (reads (holds c)) s = omega arith
left_few (reads (checks i)) s = omega arith
left_few (handles c) s = omega arith
left_few halted s = omega arith

module _ (call : Ptr → Memory → Option Memory) (stack : Bytes) (fuel : ℕ) where
  -- Steps without keys, one more than there are left: all that waited is read and handled.
  settle :
      (m n : ℕ) (p : Phase) (a : Machine) (s : Session)
      → IsDone p s ⊎ (left p s < m)
      → Agrees (m + n) fuel p a s
      → Returns
          (λ (p', a').
            (ms : List Moment) × (keys_of ms ≡ [])
            × Agrees n fuel p' a' (play ms s)
            × IsDone p' (play ms s))
          (steps call stack fuel (replicate m go) p a)
  unfolding steps play
  settle zero n p a s (inl done) agrees =
      returns ([], refl, subst (λ k. Agrees k fuel p a s) (omega arith) agrees, done)
  settle zero n p a s (inr few) agrees = absurd (omega arith)
  settle (suc m) n p a s h agrees =
      Maybe.bind
        (step-Agrees call stack fuel go (m + n) p a s tt
          (subst (λ k. Agrees k fuel p a s) (omega arith) agrees))
        λ (p', a') (ms, keys, agrees', advances).
          Maybe.mono
            (settle m n p' a' (play ms s)
              (one_less m (m + n) fuel p p' a' s (play ms s) h agrees' advances) agrees')
            λ (p'', a'') (ns, more, agrees'', done). (
              ms ++ ns,
              keys_of-append ms ns ∙ ap₂ ◌++◌ keys more,
              subst (Agrees n fuel p'' a'') (sym (play-append ms ns s)) agrees'',
              subst (IsDone p'') (sym (play-append ms ns s)) done,
            )

  steps-append :
      (acts more : List Action) (p : Phase) (a : Machine)
      → steps call stack fuel (acts ++ more) p a
        ≡ (steps call stack fuel acts p a >>= λ (p', a'). steps call stack fuel more p' a')
  unfolding steps
  steps-append [] more p a = refl
  steps-append (act ∷ acts) more p a =
      let first = step call stack fuel act p a in
      ap (◌>>=◌ first) (fun_ext λ o. steps-append acts more o.0 o.1)
      ∙ sym (
          Maybe.bind_assoc first (λ o. steps call stack fuel acts o.0 o.1)
            (λ o. steps call stack fuel more o.0 o.1))

  -- Every key reaches the text, between whichever steps its interrupt comes. If the keys and the
  -- characters that wait are at most 255, and at least five steps for each of them and two more follow without keys,
  -- and there is room for all steps, then no step fails, the ring is empty, the text is that of all the
  -- characters in their order, and the page is drawn from the text, unless there was no character: then it is
  -- as before.
  pub anytime-typed :
      (acts : List Action) (m : ℕ) (a : Machine) (s : Session)
      → All IsByteAction acts
      → length s.queue.chars + length (keys_in acts) ≤ 255
      → 5 * (length s.queue.chars + length (keys_in acts)) + 2 ≤ m
      → Works (length acts + m) fuel (desk_of a) s
      → Returns
          (λ (p', a').
            (s' : Session) × Works 0 fuel (desk_of a') s' × IsHandled (keys_in acts) s s')
          (steps call stack fuel (acts ++ replicate m go) (reads idle) a)
  anytime-typed acts m a s bytes room enough w =
      let keys = keys_in acts in
      subst (Returns _) (sym (steps-append acts (replicate m go) (reads idle) a)) (
        Maybe.bind (steps_agree call stack fuel acts m (reads idle) a s bytes (w, tt))
          λ (p1, a1) (ms, same, agrees).
            Maybe.mono
              (settle m 0 p1 a1 (play ms s)
                (inr (
                  omega (
                    arith,
                    left_few p1 (play ms s),
                    length-play ms s (rw same room),
                    ap (λ (k : List ℕ). length k) same,
                  )))
                (subst (λ k. Agrees k fuel p1 a1 (play ms s)) (omega arith) agrees))
              λ (p2, a2) (ns, none_more, agrees', done).
                typed_at 0 fuel (ms ++ ns) keys p2 a2 s room
                  (keys_of-append ms ns ∙ ap₂ ◌++◌ same none_more ∙ append-nil keys)
                  (w.shows.row_in, w.shows.column_in) w.typable
                  (subst (Agrees 0 fuel p2 a2) (sym (play-append ms ns s)) agrees')
                  (subst (IsDone p2) (sym (play-append ms ns s)) done))
