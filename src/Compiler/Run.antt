-- ===== src/Compiler/Run.antt =====
-- kernel/compiler.cpp: `execute_binary`.
use mathlib.Core.Option.{Option, some}
use first_os_build.Prelude.{
  ℕ, ◌+◌, ◌≤◌, ◌<◌, ◌≡◌, ◌≢◌, ◌>>=◌, refl, Bool, true, false, ◌||◌, List, Bytes, length, arith,
  ◌==◌, subst, sym,
}
use first_os_build.Prelude.Maybe
use first_os_build.Compiler.{execute_binary}
use first_os_build.Compiler.Keeps.{Keeps, kept_by, block_copy}
use first_os_build.Memory.{Ptr, Memory, null, header_size, memory_allocate, memory_free}
use first_os_build.Memory.Allocate.{IsHeap, blocks_after, end_after, malloc_refines}
use first_os_build.Memory.Blocks.{Block, On}
use first_os_build.Memory.Laws.{Granted, blocks_after-Granted}
use first_os_build.Memory.Realloc.{with_bytes, bytes-IsHeap, length-blocks_after, end_after-le}

-- The processor is sent to the code: it stands in a block of its own, that is in use in a heap in order, with the
-- memory `memory`; the blocks that were in use still are. What the processor leaves, if it comes back, is the memory in
-- which that block is freed, and then the run has succeeded.
pub record IsSent (call : Ptr → Memory → Option Memory) (fuel : ℕ) (bs : List Block) (limit : ℕ)
    (code : Bytes) (o : Option (Bool × Memory)) : Type 0 where
  pub memory : Memory
  pub blocks : List Block
  pub end : ℕ
  pub heap : IsHeap memory blocks end
  pub low : end ≤ limit
  pub few : length blocks ≤ length bs + 1
  pub copy : Block
  pub holds : Keeps copy memory blocks code
  pub kept : (b : Block) → On b bs → b.free ≡ false → On b blocks × (b.address ≢ copy.address)
  pub runs : o ≡ (
      call (copy.address + header_size) memory >>= λ m.
      memory_free fuel (copy.address + header_size) m >>= λ m'. some (true, m'))

-- In a heap where a block in use holds code that is not empty, with room for addresses below 2 ^ 32 and
-- fuel for a round more than there are blocks, `execute_binary` sends the processor to a copy of the code.
pub execute_binary-IsSent :
    (call : Ptr → Memory → Option Memory) (fuel : ℕ) {m : Memory} (g : Block) (bs : List Block)
    {end : ℕ} (code : Bytes)
    → IsHeap m bs end
    → Keeps g m bs code
    → 0 < length code
    → end + length code + 14 < 4294967296
    → length bs < fuel
    → IsSent call fuel bs
        (end + header_size + length code)
        code
        (execute_binary call fuel (g.address + header_size) (length code) m)
unfolding execute_binary memory_allocate
execute_binary-IsSent call fuel {m} g bs {end} code h built some_code small enough =
    let n : ℕ = length code in
    let something : (g.address + header_size == null || n == 0) ≡ false = ground arith in
    rw something (
      Maybe.within (IsSent call fuel bs (end + header_size + n) code)
        (malloc_refines fuel n bs h (omega arith) (omega arith) enough)
        λ (p, m1) (at, heap, bytes).
          let r : Granted n bs (blocks_after n end bs) p =
            subst (Granted n bs (blocks_after n end bs)) (sym at)
              (blocks_after-Granted n end bs h.laid) in
          let some_p : (p == null) ≡ false = ground (arith, r.space) in
          let gone = kept_by code r built bytes in
          let (moved, new) =
            block_copy r.block g m1 _ code heap r.on r.used r.large gone
              (λ e. (r.kept g built.on built.used).1 (sym e))
              (omega (arith, end_after-le n end bs)) in
          rw (some_p, r.space, moved)
            (record {
              memory = with_bytes m1 _;
              blocks = blocks_after n end bs;
              end = end_after n end bs;
              heap = bytes-IsHeap _ heap;
              low = end_after-le n end bs;
              few = length-blocks_after n end bs;
              copy = r.block;
              holds = new;
              kept = r.kept;
              runs = refl;
            }))
