-- ===== src/Interrupts/Irq.antt =====
-- kernel/interrupts.cpp: what one hardware interrupt does.
use first_os_build.Prelude.{ℕ, ◌+◌, ◌%◌, ◌≤◌, ◌<◌, ◌≡◌, arith, ◌∷◌, leb, ◌==◌, if◌then◌else◌}
use first_os_build.Keyboard.{keyboard_handler}
use first_os_build.Interrupts.{Interrupts, irq_handler}

-- An interrupt from 32 to 47 is acknowledged: first at the second controller if it came from there,
-- and last at the first. Interrupt 32 alone counts a tick, 33 alone reaches the keyboard driver,
-- and the table stays.
pub irq_handler_lem :
    (int_no scancode : ℕ) (s : Interrupts)
    → 32 ≤ int_no
    → int_no < 48
    → let t = irq_handler int_no scancode s in
      (t.ports ≡ (0x20, 0x20) ∷ (if leb 40 int_no then (0xA0, 0x20) ∷ s.ports else s.ports))
      × (t.tick ≡ (if int_no == 32 then (s.tick + 1) % 4294967296 else s.tick))
      × (t.keyboard ≡ (if int_no == 33 then keyboard_handler scancode s.keyboard else s.keyboard))
      × (t.idt ≡ s.idt)
unfolding irq_handler
irq_handler_lem int_no scancode s lo hi = (ground arith, ground arith, ground arith, ground arith)
