-- ===== src/Main/Anytime.antt =====
-- kernel/kernel.cpp: the loop of `kernel_main`, wherever the keyboard interrupts come.
use mathlib.Core.Option
use mathlib.Core.Option.{Option}
use first_os_build.Prelude.{
  ℕ, none, get_or, ◌%◌, suc, replicate, ◌+◌, ◌≡◌, refl, Bool, some, List, [], ◌∷◌, ◌++◌, Bytes,
  length, arith, Returns, returns, ◌>>=◌, ap₂, ◌∙◌, sym, subst, All, ◌==◌, if◌then◌else◌,
  Bool-cases, inl, inr,
}
use first_os_build.Prelude.Maybe
use first_os_build.Editor.{Desk, editor_process_keypress, process_char}
use first_os_build.Editor.Process.{Works, rest, process_char_refines}
use first_os_build.Editor.Moments.{Moment, pressed, play, keys_of, play-append, keys_of-append}
use first_os_build.Editor.Session
use first_os_build.Editor.Session.{Session}
use first_os_build.Interrupts.{irq_handler}
use first_os_build.Interrupts.Irq.{irq_handler_lem}
use first_os_build.Keyboard.{Keyboard, keyboard_getchar}
use first_os_build.Keyboard.Queue
use first_os_build.Keyboard.Queue.{Queue, getchar, char, nothing, flag}
use first_os_build.Keyboard.Reader.{idle, access}
use first_os_build.Ports.{Ports}
use first_os_build.Terminal.{Screen}
use first_os_build.Interrupts.{Stubs}
use first_os_build.Main.{round, Machine, desk_of, with_desk}
use first_os_build.Main.Steps.{Phase, reads, handles, halted, Action, key, go, settled, step, steps}
use first_os_build.Memory.{Ptr, Memory}
use first_os_build.Main.Agrees.{
  Agrees, Advances, keys_in, keys_in-cons, IsByteAction, key-Agrees, access-Agrees, weaken-Agrees,
}

-- What a run of steps leaves.
abbrev pub Reaches : ℕ → ℕ → List ℕ → Session → Phase × Machine → Type 0
Reaches n fuel keys s (p, a) =
    (ms : List Moment) × (keys_of ms ≡ keys) × Agrees n fuel p a (play ms s)

-- Where the loop goes on behind a round.
abbrev pub resumed : Bool × Machine → Phase × Machine
resumed (running, a) = (if running then reads idle else halted, a)

regroup :
    (m : Option (Bool × Desk)) (a : Machine)
    → Option.map resumed (m >>= λ o. some (o.0, with_desk o.1 a))
      ≡ ◌>>=◌ {B = Phase × Machine}
          (m >>= λ o. some (resumed (o.0, with_desk o.1 a)))
          (λ o. some (o.0, o.1))
regroup none a = refl
regroup (some r) a = refl

module _ (call : Ptr → Memory → Option Memory) (stack : Bytes) (fuel : ℕ) where
  pub step-Agrees :
      (act : Action) (n : ℕ) (p : Phase) (a : Machine) (s : Session)
      → IsByteAction act
      → Agrees (suc n) fuel p a s
      → Returns
          (λ (p', a').
            (ms : List Moment) × (keys_of ms ≡ keys_in (act ∷ []))
            × Agrees n fuel p' a' (play ms s)
            × Advances act p s p' (play ms s))
          (step call stack fuel act p a)
  unfolding step play Session.apply
  step-Agrees (key scancode) n p a s byte h =
      let (ports, tick, keyboard, idt) =
        irq_handler_lem 33 scancode a.interrupts (omega arith) (omega arith) in
      let i = irq_handler 33 scancode a.interrupts in
      returns (
        pressed scancode ∷ [],
        refl,
        subst
            (λ (k : Keyboard).
              Agrees n fuel p (record a { interrupts = record i { keyboard = k } })
                (record s { queue = Queue.press scancode s.queue }))
            (sym keyboard) (key-Agrees n fuel scancode p a i s byte (weaken-Agrees n fuel p a s h)),
        tt,
      )
  step-Agrees go n (reads r) a s byte h = returns (access-Agrees n fuel r a s h)
  step-Agrees go n (handles c) a s byte (s0, w, is_char, same) =
      Maybe.bind (process_char_refines call stack fuel (suc n) c (desk_of a) s0 is_char w)
        λ (running, d) (on, w'). rw on (
          returns (
            [],
            refl,
            (subst (Works n fuel d) (sym same) (rest n fuel d _ w'), tt),
            inr (omega arith),
          ))
  step-Agrees go n halted a s byte h = absurd h

  -- Steps of the loop with keyboard interrupts between them, from a machine that agrees with a session and
  -- has room for them: they never fail, and the machine agrees with the session behind the same keys,
  -- between which there are rounds.
  pub steps_agree :
      (acts : List Action) (n : ℕ) (p : Phase) (a : Machine) (s : Session)
      → All IsByteAction acts
      → Agrees (length acts + n) fuel p a s
      → Returns (Reaches n fuel (keys_in acts) s) (steps call stack fuel acts p a)
  unfolding steps play
  steps_agree [] n p a s bytes h =
      returns ([], refl, subst (λ k. Agrees k fuel p a s) (omega arith) h)
  steps_agree (act ∷ acts) n p a s (byte, bytes) h =
      Maybe.bind
        (step-Agrees act (length acts + n) p a s byte
          (subst (λ k. Agrees k fuel p a s) (omega arith) h))
        λ (p', a') (ms, keys, h', advances).
          Maybe.mono (steps_agree acts n p' a' (play ms s) bytes h') λ (p'', a'') (ns, more, h''). (
            ms ++ ns,
            keys_of-append ms ns ∙ ap₂ ◌++◌ keys more ∙ sym (keys_in-cons act acts),
            subst (Agrees n fuel p'' a'') (sym (play-append ms ns s)) h'',
          )

  -- Left alone, the steps of a round are the round.
  pub round-eq-steps :
      (P : Ports) (vga_memory : Screen) (stubs : Stubs) (a : Machine)
      → let k = a.interrupts.keyboard in
        Option.map resumed (round P vga_memory stubs call stack fuel a)
        ≡ steps call stack fuel
            (replicate (if k.buffer_start == k.buffer_end then 3 else 5) go)
            (reads idle)
            a
  unfolding steps step access settled round editor_process_keypress keyboard_getchar
  round-eq-steps P vga_memory stubs a =
      let k = a.interrupts.keyboard in
      elim (Bool-cases (k.buffer_start == k.buffer_end)) [
        | inl same ↦ rw same (rw same (regroup (process_char call stack fuel 0 (desk_of a)) a))
        | inr other ↦ rw other (
            rw other (
              regroup
                (process_char call stack fuel (get_or k.keyboard_buffer k.buffer_start 0)
                  (record (desk_of a) {
                    keyboard = record k { buffer_start = (k.buffer_start + 1) % 256 };
                  }))
                a))
      ]
