-- ===== src/Editor/Compile.antt =====
-- kernel/editor.cpp: `editor_compile_and_run`, the compiler and the allocator together.
use mathlib.Core.Option.{Option, some}
use first_os_build.Terminal.{KernelState}
use first_os_build.Prelude.{
  ℕ, ◌+◌, ◌≡◌, ◌≢◌, ◌>>=◌, Bool, true, false, List, [], ◌∷◌, ◌++◌, codes, Bytes, Returns,
}
use first_os_build.Prelude.Maybe
use first_os_build.Compiler.Keeps.{Keeps}
use first_os_build.Editor.{Editor, Desk}
use first_os_build.Keyboard.{Keyboard}
use first_os_build.Memory.{Ptr, Memory, header_size, free}
use first_os_build.Memory.Allocate.{IsHeap}
use first_os_build.Memory.Blocks.{Block, On}
use first_os_build.Terminal.Refine.{Shows}
use first_os_build.Terminal.View
use first_os_build.Terminal.View.{View}

-- What the user reads.
abbrev pub report : Bool → Bytes
report true = b'\r' ∷ b'\n' ∷ codes "Compilation successful. Running..." ++ b'\r' ∷ b'\n' ∷ []
report false =
    (b'\r' ∷ b'\n' ∷ codes "Compilation failed: ")
    ++ codes "Invalid instructio"
    ++ b'\r' ∷ b'\n' ∷ []

-- A desk behind a text that is no program: the editor and the keyboard as they were, the heap in order with its
-- blocks in use, the text still there, and the report on the page.
pub record Refused (bs : List Block) (b : Block) (cs : Bytes) (color : ℕ) (v : View) (e : Editor)
    (k : Keyboard) (d' : Desk) : Type 0 where
  pub blocks : List Block
  pub end : ℕ
  pub heap : IsHeap d'.memory blocks end
  pub kept : (c : Block) → On c bs → c.free ≡ false → On c blocks
  pub editor : d'.editor ≡ e
  pub keyboard : d'.keyboard ≡ k
  pub shows : Shows color (View.type_text color (report false) v) d'.kernel
  pub source : Keeps b d'.memory blocks cs

-- A program: once the page shows that it is one, the processor is sent to a copy of its code, in a block in use
-- of a heap in order, beside the blocks that were in use and the block of the binary. If the processor comes back, both
-- blocks are freed, and the desk is as it was but for the memory and the page.
pub record Runs (call : Ptr → Memory → Option Memory) (fuel : ℕ) (bs : List Block) (code : Bytes)
    (color : ℕ) (v : View) (e : Editor) (k : Keyboard) (o : Option Desk) : Type 0 where
  pub memory : Memory
  pub kernel : KernelState
  pub blocks : List Block
  pub end : ℕ
  pub heap : IsHeap memory blocks end
  pub copy : Block
  pub holds : Keeps copy memory blocks code
  pub binary : Block
  pub on : On binary blocks
  pub apart : binary.address ≢ copy.address
  pub kept :
      (c : Block)
      → On c bs
      → c.free ≡ false
      → On c blocks × (c.address ≢ copy.address) × (c.address ≢ binary.address)
  pub shows : Shows color (View.type_text color (report true) v) kernel
  pub runs : o ≡ (
      call (copy.address + header_size) memory >>= λ m1.
      free fuel (copy.address + header_size) m1 >>= λ m2.
      free fuel (binary.address + header_size) m2 >>= λ m3.
      some (record { editor = e; memory = m3; kernel = kernel; keyboard = k }))

-- By whether the text is a program.
abbrev pub Outcome :
    (Ptr → Memory → Option Memory)
    → ℕ
    → List Block
    → Block
    → Bytes
    → Bool × Bytes
    → ℕ
    → View
    → Editor
    → Keyboard
    → Option Desk
    → Type 0
Outcome call fuel bs b cs (true, code) color v e k = Runs call fuel bs code color v e k
Outcome call fuel bs b cs (false, code) color v e k = Returns (Refused bs b cs color v e k)
