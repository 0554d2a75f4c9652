-- ===== src/Main/StepTests.antt =====
-- Steps of the loop at concrete inputs, with interrupts between them.
use first_os_build.Prelude.{List, [], ◌∷◌, ◌++◌, replicate, arith, Returns, All}
use first_os_build.Editor.Process.{Works}
use first_os_build.Editor.Session.{Session}
use first_os_build.Main.{desk_of}
use first_os_build.Main.Agrees.{IsByteAction, keys_in}
use first_os_build.Main.Anytime.{Reaches, steps_agree}
use first_os_build.Main.Start.{fresh_session}
use first_os_build.Main.Steps.{Action, key, go, reads, steps}
use first_os_build.Main.Tests.{ready_machine, ready-Works, call, vga}
use first_os_build.Main.Typed.{IsHandled, anytime-typed}
use first_os_build.Keyboard.Reader.{idle}

-- "h" is pressed while the ring is tested, and released while it is read.
abbrev acts : List Action
acts = go ∷ key 0x23 ∷ go ∷ go ∷ key 0xA3 ∷ go ∷ []

acts-bytes : All IsByteAction acts
acts-bytes = omega arith

steps_agree_example :
    Returns
      (Reaches 4 30 (keys_in acts) (fresh_session vga))
      (steps call [] 30 acts (reads idle) ready_machine)
steps_agree_example =
    steps_agree call [] 30 acts 4 (reads idle) ready_machine (fresh_session vga) acts-bytes
      (ready-Works 10 (omega arith), tt)

anytime-typed_example :
    Returns
      (λ (p', a').
        (s' : Session) × Works 0 30 (desk_of a') s'
        × IsHandled (keys_in acts) (fresh_session vga) s')
      (steps call [] 30 (acts ++ replicate 12 go) (reads idle) ready_machine)
anytime-typed_example =
    anytime-typed call [] 30 acts 12 ready_machine (fresh_session vga) acts-bytes (omega arith)
      (omega arith) (ready-Works 18 (omega arith))
