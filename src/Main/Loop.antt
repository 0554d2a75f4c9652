-- ===== src/Main/Loop.antt =====
-- kernel/kernel.cpp: the loop of `kernel_main`, under keyboard interrupts, against Editor/Session.antt.
use mathlib.Core.Option.{Option}
use first_os_build.Prelude.{
  ℕ, zero, suc, ◌+◌, ◌≤◌, ◌<◌, ◌≡◌, refl, true, List, [], ◌∷◌, ◌++◌, Bytes, length, length-append,
  length-replicate, replicate, arith, Returns, returns, ap, ◌∙◌, sym, subst, All,
}
use first_os_build.Prelude.Maybe
use first_os_build.Editor.{Desk}
use first_os_build.Editor.Process.{Works, with_queue, process_refines}
use first_os_build.Editor.Session
use first_os_build.Editor.Session.{Session}
use first_os_build.Editor.Schedule.{all_of, to_come, run-typed}
use first_os_build.Interrupts.{irq_handler}
use first_os_build.Interrupts.Irq.{irq_handler_lem}
use first_os_build.Keyboard.{Keyboard, keyboard_handler}
use first_os_build.Keyboard.Layout.{press-Typable}
use first_os_build.Keyboard.Queue
use first_os_build.Keyboard.Queue.{Queue}
use first_os_build.Keyboard.Refine.{handler_refines, handler-IsValid}
use first_os_build.Main.{Machine, desk_of, round, interrupted, main_loop}
use first_os_build.Memory.{Ptr, Memory}
use first_os_build.Ports.{Ports}
use first_os_build.Terminal.{Screen}
use first_os_build.Interrupts.{Stubs}

abbrev pub AreBytes : List ℕ → Type 0
AreBytes = All (λ scancode. scancode < 256)

-- Another keyboard state for the desk.
pub typed :
    (n fuel : ℕ) (d : Desk) (s : Session) (scancode : ℕ)
    → scancode < 256
    → Works n fuel d s
    → Works n fuel
        (record d { keyboard = keyboard_handler scancode d.keyboard })
        (record s { queue = Queue.press scancode s.queue })
typed n fuel d s scancode byte w =
    with_queue n fuel d s (keyboard_handler scancode d.keyboard) (Queue.press scancode s.queue)
      (handler-IsValid w.ring scancode)
      (handler_refines w.ring scancode byte ∙ ap (Queue.press scancode) w.queue)
      (press-Typable scancode s.queue byte w.typable) w

module _ (P : Ports) (vga_memory : Screen) (stubs : Stubs) (call : Ptr → Memory → Option Memory)
    (stack : Bytes) (fuel : ℕ) where
  interrupted_refines :
      (scancodes : List ℕ) (n : ℕ) (a : Machine) (s : Session)
      → AreBytes scancodes
      → Works n fuel (desk_of a) s
      → Works n fuel
          (desk_of (interrupted P vga_memory stubs call stack fuel scancodes a))
          (record s { queue = Session.scan scancodes s.queue })
  unfolding interrupted Session.scan
  interrupted_refines [] n a s bytes w = w
  interrupted_refines (scancode ∷ more) n a s (byte, bytes) w =
      let (ports, tick, keyboard, idt) =
        irq_handler_lem 33 scancode a.interrupts (omega arith) (omega arith) in
      interrupted_refines more n (record a { interrupts = irq_handler 33 scancode a.interrupts })
        (record s { queue = Queue.press scancode s.queue }) bytes
        (subst
          (λ (k : Keyboard).
            Works n fuel (record (desk_of a) { keyboard = k })
              (record s { queue = Queue.press scancode s.queue }))
          (sym keyboard) (typed n fuel (desk_of a) s scancode byte w))

  round_refines :
      (n : ℕ) (a : Machine) (s : Session)
      → Works (suc n) fuel (desk_of a) s
      → Returns
          (λ (running, a'). (running ≡ true) × Works n fuel (desk_of a') (Session.round s))
          (round P vga_memory stubs call stack fuel a)
  unfolding round
  round_refines n a s w =
      Maybe.bind (process_refines call stack fuel n (desk_of a) s w)
        λ (running, d) (on, w'). returns (on, w')

  -- The rounds of the loop, each after interrupts with byte scancodes, from a desk that works as a session
  -- and has room for them: they all end, the editor goes on, and the desk is that of the session
  -- after the same keys and rounds.
  pub main_loop_refines :
      (rounds : List (List ℕ)) (n : ℕ) (a : Machine) (s : Session)
      → All AreBytes rounds
      → Works (length rounds + n) fuel (desk_of a) s
      → Returns
          (λ (running, a'). (running ≡ true) × Works n fuel (desk_of a') (Session.run rounds s))
          (main_loop P vga_memory stubs call stack fuel rounds a)
  unfolding main_loop Session.run
  main_loop_refines [] n a s bytes w =
      returns (refl {a = true}, subst (λ k. Works k fuel (desk_of a) s) (omega arith) w)
  main_loop_refines (scancodes ∷ rounds) n a s (byte, bytes) w =
      Maybe.bind
        (round_refines (length rounds + n) _ _ (
          interrupted_refines scancodes (suc (length rounds + n)) a s byte
            (subst (λ k. Works k fuel (desk_of a) s) (omega arith) w)))
        λ (running, a') (on, w'). rw on (main_loop_refines rounds n a' _ bytes w')

  quiet_bytes :
      (rounds : List (List ℕ)) (n : ℕ)
      → All AreBytes rounds
      → All AreBytes (rounds ++ replicate n [])
  quiet_bytes [] zero bytes = tt
  quiet_bytes [] (suc n) bytes = (tt, quiet_bytes [] n bytes)
  quiet_bytes (scancodes ∷ rounds) n (byte, bytes) = (byte, quiet_bytes rounds n bytes)

  -- Every key reaches the text, whenever its interrupt comes. If the keys and the characters that wait
  -- are at most 255, rounds without keys follow for each of them, and there is room for all rounds, then
  -- the loop empties the ring, and the text is that of all the characters applied in their order.
  pub main_loop-typed :
      (rounds : List (List ℕ)) (n : ℕ) (a : Machine) (s : Session)
      → All AreBytes rounds
      → length s.queue.chars + length (all_of rounds) ≤ 255
      → length s.queue.chars + length (all_of rounds) ≤ n
      → Works (length rounds + n) fuel (desk_of a) s
      → Returns
          (λ (running, a').
            (running ≡ true)
            × ((s' : Session) × Works 0 fuel (desk_of a') s'
                × (s'.queue.chars ≡ [])
                × (s'.text ≡ to_come (all_of rounds) s)))
          (main_loop P vga_memory stubs call stack fuel (rounds ++ replicate n []) a)
  main_loop-typed rounds n a s bytes room enough w =
      let count : length rounds + n ≡ length (rounds ++ replicate n []) + 0 =
        omega (arith, length-append rounds (replicate n []), length-replicate {A = List ℕ} n []) in
      Maybe.mono
        (main_loop_refines (rounds ++ replicate n []) 0 a s (quiet_bytes rounds n bytes)
          (subst (λ k. Works k fuel (desk_of a) s) count w))
        λ (running, a') (on, w').
          let (empty, text) = run-typed rounds n s room enough in
          (on, (Session.run (rounds ++ replicate n []) s, w', empty, text))
