-- ===== src/Main.antt =====
-- kernel/kernel.cpp: `kernel_init`, `kernel_main` and `kernel_panic`, over the subsystems.
pub mod Agrees
pub mod Anytime
pub mod Banner
pub mod Loop
pub mod Start
pub mod Steps
mod StepTests
pub mod Tests
pub mod Typed
use first_os_build.Prelude.{
  ℕ, ◌/◌, Bool, true, false, Option, some, List, [], ◌∷◌, ◌++◌, Bytes, codes, if◌then◌else◌, ◌>>=◌,
  pos,
}
use first_os_build.Ports.{Ports}
use first_os_build.Editor.{Editor, Desk, editor_init, editor_process_keypress}
use first_os_build.Filesystem.{FileSystem, filesystem_init}
use first_os_build.Interrupts.{Interrupts, Stubs, interrupts_init, irq_handler, int_to_string}
use first_os_build.Keyboard.Init.{keyboard_init}
use first_os_build.Memory.{Ptr, Memory, memory_init, memory_get_total, memory_get_free}
use first_os_build.Terminal.{
  KernelState, Screen, terminal_init, terminal_clear, terminal_write_string, terminal_set_color,
  vga_color_red, vga_color_black,
}

-- The globals of the kernel; the keyboard driver's stand with the interrupts, which change them.
pub record Machine : Type 0 where
  pub memory : Memory
  pub kernel : KernelState
  pub files : FileSystem
  pub interrupts : Interrupts
  pub editor : Editor

-- What the editor works on, and what it leaves.
abbrev pub desk_of : Machine → Desk
desk_of a = record {
  editor = a.editor;
  memory = a.memory;
  kernel = a.kernel;
  keyboard = a.interrupts.keyboard;
}

abbrev pub with_desk : Desk → Machine → Machine
with_desk d a = record a {
  editor = d.editor;
  memory = d.memory;
  kernel = d.kernel;
  interrupts = record a.interrupts { keyboard = d.keyboard };
}

-- The texts of `kernel_main`, each with its zero byte.
abbrev pub literal : Bytes → Bytes
literal cs = cs ++ 0 ∷ []

unfoldable pub write_all : List Bytes → KernelState → Option KernelState
write_all [] s = some s
write_all (t ∷ ts) s = terminal_write_string (literal t) s >>= write_all ts

-- "GHOST" and three dots; the delay between them does nothing else.
abbrev pub greeting : List Bytes
greeting = codes "GHOST" ∷ codes "." ∷ codes "." ∷ codes "." ∷ (b'\r' ∷ b'\n' ∷ []) ∷ []

abbrev pub banner_line : Bytes → Bytes
banner_line cs = cs ++ b'\n' ∷ []

abbrev pub banner : List Bytes
banner =
    banner_line (codes "   ______  __  __  ____    _____ _______ ")
    ∷ banner_line (codes "  / ____ \\|  ||  |/ __ \\  / ____|__   __|")
    ∷ banner_line (codes " | |  | | |  ||  | |  | || (___    | |   ")
    ∷ banner_line (codes " | |  | | |  ||  | |  | | \\___ \\   | |   ")
    ∷ banner_line (codes " | |__| | |  ||  | |__| | ____) |  | |   ")
    ∷ banner_line (codes "  \\___\\_\\ |__||__| \\____/ |_____/   |_|   ")
    ∷ banner_line (codes "            Security Edition v2.0.0        ")
    ∷ banner_line (codes "----------------------------------------")
    ∷ []

-- "Show system info"; `memstr` has 32 bytes.
unfoldable pub show_memory : KernelState → Option KernelState
show_memory s = do
  total ← int_to_string 12 (pos (s.total_memory / 1024)) 32
  free ← int_to_string 12 (pos (s.free_memory / 1024)) 32
  write_all
      (codes "Memory: " ∷ total ∷ codes " KB total, " ∷ free ∷ banner_line (codes " KB free") ∷ [])
      s

-- "Show main banner", on a clear screen
unfoldable pub show_main_banner : KernelState → Option KernelState
show_main_banner s = do s ← terminal_clear s; s ← write_all banner s; show_memory s

-- The parameters: the keyboard controller, the address space of the screen, the addresses of the stubs,
-- what the processor does from an address on, and what stands in the compiler's `line_buffer` before.
module _ (P : Ports) (vga_memory : Screen) (stubs : Stubs) (call : Ptr → Memory → Option Memory)
    (stack : Bytes) (fuel : ℕ) where
  unfoldable pub kernel_init : Machine → P.Dev → Option (Machine × P.Dev)
  kernel_init a d = do
    let memory = memory_init a.memory
    kernel ←
        terminal_init vga_memory
          (record a.kernel { total_memory = memory_get_total; free_memory = memory_get_free })
    (k, d) ← keyboard_init P fuel a.interrupts.keyboard d
    let machine : Machine = record {
      memory = memory;
      kernel = kernel;
      files = filesystem_init a.files;
      interrupts = interrupts_init stubs (record a.interrupts { keyboard = k });
      editor = editor_init a.editor;
    }
    some (machine, d)

  -- `kernel_main` up to its loop
  unfoldable pub kernel_start : Machine → P.Dev → Option (Machine × P.Dev)
  kernel_start a d = do
    kernel ← terminal_clear a.kernel
    kernel ← write_all greeting kernel
    (a, d) ← kernel_init (record a { kernel = kernel }) d
    kernel ← show_main_banner a.kernel
    some (record a { kernel = kernel; editor = editor_init a.editor }, d)

  -- One round of the loop of `kernel_main`; the result says whether the processor goes on.
  unfoldable pub round : Machine → Option (Bool × Machine)
  round a = do
    (running, d) ← editor_process_keypress call stack fuel (desk_of a)
    some (running, with_desk d a)

  -- The keyboard interrupts that arrive before a round, by their scancodes.
  unfoldable pub interrupted : List ℕ → Machine → Machine
  interrupted [] a = a
  interrupted (scancode ∷ more) a =
      interrupted more (record a { interrupts = irq_handler 33 scancode a.interrupts })

  -- As many rounds as there are lists of scancodes.
  unfoldable pub main_loop : List (List ℕ) → Machine → Option (Bool × Machine)
  main_loop [] a = some (true, a)
  main_loop (scancodes ∷ rounds) a = do
    (running, a) ← round (interrupted scancodes a)
    if running then main_loop rounds a else some (false, a)

-- What `kernel_panic` does before it halts.
unfoldable pub kernel_panic : Bytes → KernelState → Option KernelState
kernel_panic text s = do
  s ←
      terminal_write_string (b'\n' ∷ literal (codes "KERNEL PANIC: "))
        (terminal_set_color vga_color_red vga_color_black s)
  s ← terminal_write_string text s
  terminal_write_string (b'\n' ∷ literal (banner_line (codes "System halted."))) s
