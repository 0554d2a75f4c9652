-- ===== src/Editor/Buffer.antt =====
-- kernel/editor.cpp: the text in the editor's buffer.
use first_os_build.Prelude.{ℕ, ◌+◌, ◌≤◌, ◌≡◌, ◌⊎◌, ◌==◌, Bool, false, List, [], Bytes, length}
use first_os_build.Compiler.{bytes_at}
use first_os_build.Editor.{Editor}
use first_os_build.Editor.Text.{Text, IsWithin}
use first_os_build.Memory.{Ptr, Memory, null, header_size}
use first_os_build.Memory.Blocks.{Block, On}
use first_os_build.Memory.Allocate.{IsHeap}

-- Where the text stands: nowhere, while there is none, or at the start of the space of a block in use.
abbrev pub Place : List Block → Bytes → Ptr → Type 0
Place bs cs p =
    ((p ≡ null) × (cs ≡ []))
    ⊎ ((b : Block) × On b bs
        × (b.free ≡ false)
        × (p ≡ b.address + header_size)
        × (length cs ≤ b.size))

-- In a heap of the blocks `bs` up to `end`, the editor's buffer holds the text `cs`.
pub record Holds (e : Editor) (m : Memory) (bs : List Block) (end : ℕ) (cs : Bytes) : Type 0 where
  pub heap : IsHeap m bs end
  pub place : Place bs cs e.buffer
  pub count : e.buffer_size ≡ length cs
  pub bytes : bytes_at m e.buffer (length cs) ≡ cs

-- The editor, with the screen's 24 rows and 80 columns, holds the text and stands in its column.
pub record Edits (e : Editor) (m : Memory) (bs : List Block) (end : ℕ) (t : Text) : Type 0 where
  pub holds : Holds e m bs end t.chars
  pub column : e.cursor_x ≡ t.column
  pub within : IsWithin t
  pub rows : e.screen_rows ≡ 24
  pub cols : e.screen_cols ≡ 80

-- The same with some blocks, at most one more than `n`, that end at `limit` at most, and with a buffer
-- that is null or not.
pub record Grown (n limit : ℕ) (e : Editor) (m : Memory) (t : Text) (is_null : Bool) : Type 0 where
  pub blocks : List Block
  pub end : ℕ
  pub edits : Edits e m blocks end t
  pub few : length blocks ≤ n + 1
  pub low : end ≤ limit
  pub null : (e.buffer == null) ≡ is_null
