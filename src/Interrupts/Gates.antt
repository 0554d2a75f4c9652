-- ===== src/Interrupts/Gates.antt =====
-- kernel/interrupts.cpp: the table after `interrupts_init`.
use first_os_build.Prelude.{
  ℕ, ◌+◌, ◌*◌, ◌/◌, ◌%◌, ◌<◌, ◌≡◌, ◌≢◌, refl, true, List, [], ◌∷◌, ◌++◌, ◌==◌, if◌then◌else◌, arith,
}
use first_os_build.Ports.{Trace}
use first_os_build.Interrupts.{
  IdtEntry, Interrupts, Stubs, idt_set_gate, interrupts_init, empty_entry,
}

abbrev pub gate_base : IdtEntry → ℕ
gate_base g = g.base_hi * 65536 + g.base_lo

-- A gate keeps the whole 32-bit address of its handler, and the other gates stay.
pub idt_set_gate_lem :
    (num base sel flags i : ℕ) (s : Interrupts)
    → base < 4294967296
    → (gate_base ((idt_set_gate num base sel flags s).idt num) ≡ base)
      × (i ≢ num → (idt_set_gate num base sel flags s).idt i ≡ s.idt i)
unfolding idt_set_gate
idt_set_gate_lem num base sel flags i s h = (ground arith, ground arith)

-- A present interrupt gate of 32 bits, in ring 0, to the address in the code segment (selector 8).
pub record LeadsTo (address : ℕ) (g : IdtEntry) : Type 0 where
  pub base : gate_base g ≡ address
  pub segment : g.sel ≡ 0x08
  pub present : g.flags / 128 ≡ 1
  pub ring : (g.flags / 32) % 4 ≡ 0
  pub interrupt_gate : g.flags % 32 ≡ 0xE
  pub reserved : g.always0 ≡ 0

gate_to :
    (address : ℕ)
    → address < 4294967296
    → LeadsTo address (record {
      base_lo = address % 65536;
      sel = 0x08;
      always0 = 0;
      flags = 0x8E;
      base_hi = (address / 65536) % 65536;
    })
gate_to address h = record {
  base = omega arith;
  segment = refl;
  present = refl;
  ring = refl;
  interrupt_gate = refl;
  reserved = refl;
}

-- The bytes that were written to a port, the first one first.
unfoldable pub written_to : ℕ → Trace → List ℕ
written_to port [] = []
written_to port ((q, v) ∷ older) =
    if q == port then written_to port older ++ (v ∷ []) else written_to port older

-- After the initialisation, with stubs at 32-bit addresses, the table of 256 gates is loaded and
-- interrupts are on. The gates of the divide error, the debug exception, the timer and the keyboard are
-- present interrupt gates to their stubs, and every other gate is empty. To each of the two
-- controllers, where nothing was written before, went the four initialisation words, that map its interrupts to
-- 32 and to 40, and then an empty mask.
pub interrupts_init-gates :
    (a : Stubs) (s : Interrupts) (i : ℕ)
    → a.isr0 < 4294967296
    → a.isr1 < 4294967296
    → a.irq0 < 4294967296
    → a.irq1 < 4294967296
    → s.ports ≡ []
    → let t = interrupts_init a s in
      LeadsTo a.isr0 (t.idt 0)
      × LeadsTo a.isr1 (t.idt 1)
      × LeadsTo a.irq0 (t.idt 32)
      × LeadsTo a.irq1 (t.idt 33)
      × (i ≢ 0 → i ≢ 1 → i ≢ 32 → i ≢ 33 → t.idt i ≡ empty_entry)
      × (t.idt_base ≡ a.table)
      × (t.idt_limit + 1 ≡ 256 * 8)
      × (t.loaded ≡ true)
      × (t.enabled ≡ true)
      × (written_to 0x20 t.ports ≡ 0x11 ∷ [])
      × (written_to 0x21 t.ports ≡ 32 ∷ 4 ∷ 1 ∷ 0 ∷ [])
      × (written_to 0xA0 t.ports ≡ 0x11 ∷ [])
      × (written_to 0xA1 t.ports ≡ 40 ∷ 2 ∷ 1 ∷ 0 ∷ [])
unfolding interrupts_init written_to
interrupts_init-gates a s i h0 h1 h2 h3 none_before = (
  gate_to a.isr0 h0,
  gate_to a.isr1 h1,
  gate_to a.irq0 h2,
  gate_to a.irq1 h3,
  ground arith,
  refl,
  refl,
  refl,
  refl,
  rw none_before refl,
  rw none_before refl,
  rw none_before refl,
  rw none_before refl,
)
