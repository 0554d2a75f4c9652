-- ===== src/Release/Kernel.antt =====
-- release/kernel/kernel.cpp: `kernel_init` and `kernel_main`; `memory_get_free` of memory.cpp,
-- `keyboard_send_data` of keyboard.cpp.
use first_os_build.Prelude.{
  ℕ, ◌/◌, ◌*◌, Bool, Option, some, [], ◌∷◌, ◌++◌, Bytes, codes, ◌>>=◌, pos,
}
use first_os_build.Ports.{Ports}
use first_os_build.Filesystem.{FileSystem, filesystem_init}
use first_os_build.Interrupts.{Interrupts, Stubs, interrupts_init}
use first_os_build.Keyboard.Init.{keyboard_init, keyboard_wait_input, keyboard_data_port}
use first_os_build.Memory.{Memory, memory_init, memory_get_total}
use first_os_build.Release.Editor.{Editor, Desk, editor_init, editor_process_keypress}
use first_os_build.Stdio.{int, sprintf}
use first_os_build.Terminal.{KernelState, Screen, terminal_init, terminal_write_string}

unfoldable pub memory_get_free : ℕ
memory_get_free = 32 * 1024 * 1024

unfoldable pub keyboard_send_data : (P : Ports) → ℕ → ℕ → P.Dev → Option (P.Dev)
keyboard_send_data P fuel value d = do
  d' ← keyboard_wait_input P fuel d
  some (P.outb keyboard_data_port value d')

-- The globals of the kernel; the keyboard driver's stand with the interrupts, which change them.
pub record Machine : Type 0 where
  pub memory : Memory
  pub kernel : KernelState
  pub files : FileSystem
  pub interrupts : Interrupts
  pub editor : Editor

-- The texts of `kernel_main`, each with its zero byte.
abbrev pub literal : Bytes → Bytes
literal cs = cs ++ 0 ∷ []

abbrev pub memory_format : Bytes
memory_format = codes "%uKB total, %uKB free" ++ b'\n' ∷ 0 ∷ []

abbrev pub help_text : Bytes
help_text = (b'\n' ∷ codes "Type 'help' for available commands.") ++ (b'\n' ∷ b'\n' ∷ [])

-- The texts between `kernel_init` and the loop; `memstr` has 32 bytes.
unfoldable pub show_banner : KernelState → Option KernelState
show_banner s = do
  s ← terminal_write_string (literal (codes "Custom OS v2.0.0" ++ b'\n' ∷ [])) s
  s ← terminal_write_string (literal (codes "---------------" ++ b'\n' ∷ [])) s
  s ← terminal_write_string (literal (codes "Memory: ")) s
  (n, memstr) ←
      sprintf 32 memory_format
        (int (pos (s.total_memory / 1024)) ∷ int (pos (s.free_memory / 1024)) ∷ [])
  s ← terminal_write_string (literal memstr) s
  terminal_write_string (literal help_text) s

-- The parameters: the keyboard controller, the address space of the screen, the addresses of the stubs.
module _ (P : Ports) (vga_memory : Screen) (stubs : Stubs) (fuel : ℕ) where
  unfoldable pub kernel_init : Machine → P.Dev → Option (Machine × P.Dev)
  kernel_init a d = do
    let memory = memory_init a.memory
    kernel ←
        terminal_init vga_memory
          (record a.kernel { total_memory = memory_get_total; free_memory = memory_get_free })
    (k, d) ← keyboard_init P fuel a.interrupts.keyboard d
    let machine : Machine = record {
      memory = memory;
      kernel = kernel;
      files = filesystem_init a.files;
      interrupts = interrupts_init stubs (record a.interrupts { keyboard = k });
      editor = editor_init a.editor;
    }
    some (machine, d)

  -- `kernel_main` up to its loop
  unfoldable pub kernel_start : Machine → P.Dev → Option (Machine × P.Dev)
  kernel_start a d = do
    (a, d) ← kernel_init a d
    kernel ← show_banner a.kernel
    some (record a { kernel = kernel }, d)

-- One round of the loop of `kernel_main`; the result says whether the processor goes on.
unfoldable pub round : ℕ → Machine → Option (Bool × Machine)
round fuel a = do
  let desk : Desk = record {
    editor = a.editor;
    memory = a.memory;
    kernel = a.kernel;
    keyboard = a.interrupts.keyboard;
  }
  (running, d) ← editor_process_keypress fuel desk
  some (
    running,
    record a {
      editor = d.editor;
      memory = d.memory;
      kernel = d.kernel;
      interrupts = record a.interrupts { keyboard = d.keyboard };
    },
  )
