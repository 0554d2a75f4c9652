-- ===== src/Main/Start.antt =====
-- kernel/kernel.cpp: a fresh desk as a session, and the start of `kernel_main` before a silent controller.
use mathlib.Core.Option.{Option}
use first_os_build.Prelude.{ℕ, ◌+◌, ◌<◌, ◌≡◌, refl, true, false, [], ◌∷◌, length, arith, inl}
use first_os_build.Prelude.Maybe
use first_os_build.Compiler.{bytes_at}
use first_os_build.Editor.{Editor, editor_init}
use first_os_build.Editor.Buffer.{Holds}
use first_os_build.Editor.Process.{Works, mul_le}
use first_os_build.Editor.Session.{Session}
use first_os_build.Keyboard.{Keyboard}
use first_os_build.Keyboard.Refine.{abstract_of}
use first_os_build.Keyboard.Ring.{waiting, pending}
use first_os_build.Memory.{Memory, heap_start_address, heap_size, memory_init}
use first_os_build.Memory.Free.{whole, memory_init-IsHeap}
use first_os_build.Ports.{Ports}
use first_os_build.Terminal.{Screen, KernelState, make_vgaentry}
use first_os_build.Terminal.Loops.{fill}
use first_os_build.Terminal.Refine.{Shows}

-- The driver before the start: its variables are zero.
pub record IsUnused (k : Keyboard) : Type 0 where
  pub storage : length k.keyboard_buffer ≡ 256
  pub start : k.buffer_start ≡ 0
  pub end : k.buffer_end ≡ 0
  pub shift : k.shift_pressed ≡ false
  pub caps : k.caps_lock ≡ false

-- No text, no characters waiting, a blank page.
abbrev pub fresh_session : Screen → Session
fresh_session vga = record {
  text = record { chars = []; column = 0 };
  queue = record { chars = []; shift = false; caps = false };
  view = record { row = 0; column = 0; cells = fill vga 0 2000 (make_vgaentry b' ' 7) };
  untouched = true;
}

unused-queue :
    (k : Keyboard) → IsUnused k → abstract_of k ≡ record { chars = []; shift = false; caps = false }
unused-queue k h =
    let empty : waiting k ≡ 0 = omega (arith, h.start, h.end) in
    λ i. record {
      chars = pending k.keyboard_buffer k.buffer_start (empty i);
      shift = h.shift i;
      caps = h.caps i;
    }

fresh-Holds :
    (m : Memory) (e : Editor)
    → Holds (editor_init e) (memory_init m) (whole ∷ []) (heap_start_address + heap_size) []
unfolding bytes_at editor_init first_os_build.Terminal.terminal_get_size
fresh-Holds m e = record {
  heap = memory_init-IsHeap m;
  place = inl (refl, refl);
  count = refl;
  bytes = refl;
}

-- A fresh editor in a fresh heap, before an unused keyboard and a blank page.
pub fresh-Works :
    (rounds fuel : ℕ) (vga : Screen) (m : Memory) (e : Editor) (k : Keyboard) (s : KernelState)
    → IsUnused k
    → Shows 7 (fresh_session vga).view s
    → rounds < 65000
    → rounds < fuel
    → Works rounds fuel
        (record { editor = editor_init e; memory = memory_init m; kernel = s; keyboard = k })
        (fresh_session vga)
unfolding editor_init first_os_build.Terminal.terminal_get_size
fresh-Works rounds fuel vga m e k s unused shows few enough = record {
  blocks = whole ∷ [];
  end = heap_start_address + heap_size;
  edits = record {
    holds = fresh-Holds m e;
    column = refl;
    within = omega arith;
    rows = refl;
    cols = refl;
  };
  null = refl;
  ring = record {
    storage = unused.storage;
    start_in = omega (arith, unused.start);
    end_in = omega (arith, unused.end);
  };
  queue = unused-queue k unused;
  typable = tt;
  shows = shows;
  room = omega (arith, mul_le rounds (rounds + 14) 65014 (omega arith));
  enough = omega arith;
}
