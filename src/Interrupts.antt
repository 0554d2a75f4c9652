-- ===== src/Interrupts.antt =====
-- kernel/interrupts.cpp: the descriptor table, the two interrupt controllers, and the handlers.
-- `idt_load` and `sti` are instructions; the addresses of the assembly stubs are arguments.
mod Tests
pub mod Gates
pub mod Irq
pub mod Numbers
use first_os_build.Prelude.{
  ℕ, zero, suc, ◌+◌, ◌-◌, ◌*◌, ◌/◌, ◌%◌, ◌^◌, Bool, true, false, Option, none, some, List, [], ◌∷◌,
  ◌++◌, Bytes, ltb, leb, ◌==◌, if◌then◌else◌, guard, ◌>>=◌, ◌>>◌, length, ℤ, pos, negsuc,
}
use first_os_build.Ports.{Trace}
use first_os_build.Keyboard.{Keyboard, keyboard_handler}
use first_os_build.Stdio.{emit, finish, magnitude, is_negative}

pub record IdtEntry : Type 0 where
  pub base_lo : ℕ
  pub sel : ℕ
  pub always0 : ℕ
  pub flags : ℕ
  pub base_hi : ℕ

pub record Interrupts : Type 0 where
  pub idt : ℕ → IdtEntry
  pub idt_limit : ℕ
  pub idt_base : ℕ
  pub tick : ℕ
  pub keyboard : Keyboard
  pub ports : Trace
  pub loaded : Bool
  pub enabled : Bool

unfoldable pub outb : ℕ → ℕ → Interrupts → Interrupts
outb port v s = record s { ports = (port, v) ∷ s.ports }

unfoldable pub idt_set_gate : ℕ → ℕ → ℕ → ℕ → Interrupts → Interrupts
idt_set_gate num base sel flags s =
    let entry : IdtEntry = record {
      base_lo = base % 2 ^ 16;
      sel = sel;
      always0 = 0;
      flags = flags;
      base_hi = (base / 2 ^ 16) % 2 ^ 16;
    } in
    record s { idt = λ i. if i == num then entry else s.idt i }

unfoldable pub timer_handler : Interrupts → Interrupts
timer_handler s = record s { tick = (s.tick + 1) % 2 ^ 32 }

-- `scancode` is what the data port of the keyboard holds.
unfoldable pub irq_handler : ℕ → ℕ → Interrupts → Interrupts
unfolding outb timer_handler
irq_handler int_no scancode s =
    let s = if leb 40 int_no then outb 0xA0 0x20 s else s in
    let s = outb 0x20 0x20 s in
    let irq = (int_no + 2 ^ 32 - 32) % 2 ^ 32 in
    if irq == 0
    then timer_handler s
    else if irq == 1
    then record s { keyboard = keyboard_handler scancode s.keyboard }
    else s

-- "Remap PIC"
unfoldable pub pic_init : Interrupts → Interrupts
unfolding outb
pic_init s = outb 0xA1 0x0 (
    outb 0x21 0x0 (
      outb 0xA1 0x01 (
        outb 0x21 0x01 (
          outb 0xA1 0x02 (
            outb 0x21 0x04
              (outb 0xA1 0x28 (outb 0x21 0x20 (outb 0xA0 0x11 (outb 0x20 0x11 s)))))))))

abbrev pub empty_entry : IdtEntry
empty_entry = record { base_lo = 0; sel = 0; always0 = 0; flags = 0; base_hi = 0 }

-- The addresses of the stubs in kernel/interrupt_asm.asm, and of the table.
pub record Stubs : Type 0 where
  pub isr0 : ℕ
  pub isr1 : ℕ
  pub irq0 : ℕ
  pub irq1 : ℕ
  pub table : ℕ

unfoldable pub interrupts_init : Stubs → Interrupts → Interrupts
unfolding pic_init idt_set_gate
interrupts_init a s =
    let s = record s { idt_limit = 8 * 256 - 1; idt_base = a.table; idt = λ i. empty_entry } in
    let s = pic_init s in
    let s = idt_set_gate 1 a.isr1 0x08 0x8E (idt_set_gate 0 a.isr0 0x08 0x8E s) in
    let s = idt_set_gate 33 a.irq1 0x08 0x8E (idt_set_gate 32 a.irq0 0x08 0x8E s) in
    record s { loaded = true; enabled = true }

-- `while (num != 0)`
unfoldable pub int_to_string_loop : ℕ → ℕ → ℕ → Bytes → Option Bytes
int_to_string_loop zero num cap out = none
int_to_string_loop (suc fuel) num cap out =
    let round = emit cap out ((num % 10 + b'0') % 256) >>= int_to_string_loop fuel (num / 10) cap in
    if num == 0 then some out else round

-- `cap` is the size of the object at `str`. The last loop is that of `reverse` in kernel/stdio.cpp.
unfoldable pub int_to_string : ℕ → ℤ → ℕ → Option Bytes
int_to_string fuel (pos zero) cap = do
  out ← emit cap [] b'0'
  guard (ltb (length out) cap)
  some out
int_to_string fuel (pos (suc n)) cap = int_to_string_loop fuel (suc n) cap [] >>= finish fuel cap
int_to_string fuel (negsuc n) cap = do
  m ← magnitude (negsuc n)
  out ← int_to_string_loop fuel m cap []
  out' ← emit cap out b'-'
  finish fuel cap out'

-- The text with which `isr_handler` calls `kernel_panic`; the inner `none` is a return.
unfoldable pub isr_handler : ℕ → Option (Option Bytes)
isr_handler int_no =
    if ltb int_no 32
    then (int_to_string 12 (pos int_no) 12 >>= λ num_str. some (some num_str))
    else some none
