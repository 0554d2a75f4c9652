-- ===== src/Ports.antt =====
-- kernel/io.h: the two port instructions. What stands behind a port is hardware, so a device with
-- its reads and writes is a parameter. Code that only writes is modelled by its trace of writes.
use first_os_build.Prelude.{ℕ, List}

-- `inb` gives the byte read and the device after it; `outb` gives the device after it.
pub record Ports : Type 1 where
  pub Dev : Type 0
  pub inb : ℕ → Dev → ℕ × Dev
  pub outb : ℕ → ℕ → Dev → Dev

-- The writes to ports, port and byte, newest first.
abbrev pub Trace : Type 0
Trace = List (ℕ × ℕ)
