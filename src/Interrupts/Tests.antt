-- ===== src/Interrupts/Tests.antt =====
-- Interrupts at concrete inputs.
use first_os_build.Prelude.{ℕ, ◌+◌, ◌*◌, ◌∷◌, refl, true, ◌≡◌, ◌≢◌, false, [], arith, replicate}
use first_os_build.Interrupts.{Interrupts, Stubs, idt_set_gate, interrupts_init, empty_entry}
use first_os_build.Interrupts.Gates.{
  LeadsTo, written_to, gate_base, idt_set_gate_lem, interrupts_init-gates,
}

abbrev idle : Interrupts
idle = record {
  idt = λ i. empty_entry;
  idt_limit = 0;
  idt_base = 0;
  tick = 4294967295;
  keyboard = record {
    keyboard_buffer = replicate 256 0;
    buffer_start = 0;
    buffer_end = 0;
    shift_pressed = false;
    caps_lock = false;
  };
  ports = [];
  loaded = false;
  enabled = false;
}

abbrev stubs : Stubs
stubs = record {
  isr0 = 0x101000;
  isr1 = 0x101010;
  irq0 = 0x101020;
  irq1 = 0x101030;
  table = 0x102000;
}

idt_set_gate_lem_example :
    (gate_base ((idt_set_gate 33 0x101030 8 0x8E idle).idt 33) ≡ 0x101030)
    × ((◌≢◌ {A = ℕ} 7 33) → (idt_set_gate 33 0x101030 8 0x8E idle).idt 7 ≡ idle.idt 7)
idt_set_gate_lem_example = idt_set_gate_lem 33 0x101030 8 0x8E 7 idle (omega arith)

interrupts_init-gates_example :
    let t = interrupts_init stubs idle in
    LeadsTo 0x101000 (t.idt 0)
    × LeadsTo 0x101010 (t.idt 1)
    × LeadsTo 0x101020 (t.idt 32)
    × LeadsTo 0x101030 (t.idt 33)
    × ((◌≢◌ {A = ℕ} 7 0)
        → (◌≢◌ {A = ℕ} 7 1)
        → (◌≢◌ {A = ℕ} 7 32)
        → (◌≢◌ {A = ℕ} 7 33)
        → t.idt 7 ≡ empty_entry)
    × (t.idt_base ≡ 0x102000)
    × (t.idt_limit + 1 ≡ 256 * 8)
    × (t.loaded ≡ true)
    × (t.enabled ≡ true)
    × (written_to 0x20 t.ports ≡ 0x11 ∷ [])
    × (written_to 0x21 t.ports ≡ 32 ∷ 4 ∷ 1 ∷ 0 ∷ [])
    × (written_to 0xA0 t.ports ≡ 0x11 ∷ [])
    × (written_to 0xA1 t.ports ≡ 40 ∷ 2 ∷ 1 ∷ 0 ∷ [])
interrupts_init-gates_example =
    interrupts_init-gates stubs idle 7 (omega arith) (omega arith) (omega arith) (omega arith) refl
