-- ===== src/Main/Steps.antt =====
-- kernel/kernel.cpp: the loop of `kernel_main` step by step, with keyboard interrupts between any two steps.
-- A step is one access of the ring by `keyboard_getchar`, or what a round does behind it, which does not
-- touch the ring.
use first_os_build.Prelude.{ℕ, Option, some, List, [], ◌∷◌, Bytes, if◌then◌else◌, ◌>>=◌}
use first_os_build.Editor.{process_char}
use first_os_build.Interrupts.{irq_handler}
use first_os_build.Keyboard.Queue.{nothing, char, flag}
use first_os_build.Keyboard.Reader.{Reader, idle, Trace, wants_char, access}
use first_os_build.Main.{Machine, desk_of, with_desk}
use first_os_build.Memory.{Ptr, Memory}

-- Where the loop stands: in `keyboard_getchar`, behind it with the character, or halted.
pub data Phase : Type 0 where
  reads : Reader → Phase
  handles : ℕ → Phase
  halted : Phase

pub data Action : Type 0 where
  key : ℕ → Action  -- a keyboard interrupt, with its scancode
  go : Action  -- the next step of the loop

-- Behind an access: a character that it settles is handled next.
unfoldable pub settled : Trace → Reader → Phase
settled [] r = reads r
settled ((e, nothing) ∷ t) r = reads r
settled ((e, char c) ∷ t) r = handles c
settled ((e, flag b) ∷ t) r = reads r

module _ (call : Ptr → Memory → Option Memory) (stack : Bytes) (fuel : ℕ) where
  unfoldable pub step : Action → Phase → Machine → Option (Phase × Machine)
  step (key scancode) p a = some (p, record a { interrupts = irq_handler 33 scancode a.interrupts })
  step go (reads r) a =
      let (t, r', k) = access wants_char r a.interrupts.keyboard in
      some (settled t r', record a { interrupts = record a.interrupts { keyboard = k } })
  step go (handles c) a = do
    (running, d) ← process_char call stack fuel c (desk_of a)
    some (if running then reads idle else halted, with_desk d a)
  step go halted a = some (halted, a)

  unfoldable pub steps : List Action → Phase → Machine → Option (Phase × Machine)
  steps [] p a = some (p, a)
  steps (act ∷ acts) p a = step act p a >>= λ (p', a'). steps acts p' a'
