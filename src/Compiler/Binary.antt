-- ===== src/Compiler/Binary.antt =====
-- kernel/compiler.cpp: `compile_code` against the lines of Compiler/Assembly.antt.
use first_os_build.Prelude.Maybe
use first_os_build.Prelude.{
  ℕ, ◌+◌, ◌-◌, ◌*◌, ◌%◌, ◌≤◌, ◌<◌, ◌≡◌, ◌≢◌, refl, Bool, true, false, some, List, [], ◌++◌, Bytes,
  codes, arith, ◌==◌, if◌then◌else◌, ◌>>=◌, replicate, length, ap₂, ◌∙◌, sym, subst, Returns,
  returns,
}
use first_os_build.CString.Compare.{IsText}
use first_os_build.Compiler.{CompileResult, bytes_at, compile_code, emit_binary, message}
use first_os_build.Compiler.Assembly.{lines, assemble_all}
use first_os_build.Memory.{Ptr, Memory, null, header_size, memory_free, memory_allocate}
use first_os_build.Memory.Allocate.{IsHeap, blocks_after, end_after, malloc_refines}
use first_os_build.Memory.Blocks.{Block, On}
use first_os_build.Memory.Laws.{Granted, On-apart, blocks_after-Granted}
use first_os_build.Memory.Realloc.{
  with_bytes, copied, length-blocks_after, end_after-le, bytes-IsHeap,
}
use first_os_build.Compiler.Lines.{Compiled, compile_loop_refines}
use first_os_build.Compiler.Sources.{length-assemble_all, lines-some}
use first_os_build.Compiler.Keeps.{Keeps, freed, kept_by, keeps_outside, block_copy}

-- The text of a result in its 256 bytes.
abbrev pub padded : Bytes → Bytes
padded cs = cs ++ replicate (256 - length cs) 0

-- The result of a compilation, in a heap that keeps the source and the other blocks in use, and that has
-- grown by two blocks at most and stands below the limit.
pub record Built (old : List Block) (limit : ℕ) (b : Block) (cs : Bytes) (valid : Bool)
    (code : Bytes) (result : CompileResult) (m : Memory) : Type 0 where
  pub blocks : List Block
  pub end : ℕ
  pub heap : IsHeap m blocks end
  pub few : length blocks ≤ length old + 2
  pub low : end ≤ limit
  pub kept : (c : Block) → On c old → c.free ≡ false → On c blocks
  pub source : Keeps b m blocks cs
  pub success : result.success ≡ valid
  pub binary :
      if valid
      then ((g : Block) × Keeps g m blocks code
          × (result.binary ≡ g.address + header_size)
          × (result.binary_size ≡ length code)
          × ((c : Block) → On c old → c.free ≡ false → c.address ≢ g.address)
          × (0 < length code)
          × (length code ≤ 6 * length cs))
      else (result.binary ≡ null)
  pub report :
      result.error_message
      ≡ padded (if valid then codes "Compilation successfu" else codes "Invalid instructio")

-- The part of `compile_code` that makes the binary.
emit_refines :
    (fuel count limit : ℕ) {m : Memory} (b g : Block) (old bs : List Block) {end : ℕ}
    (cs code : Bytes)
    → length bs ≤ length old + 1
    → ((c : Block) → On c old → c.free ≡ false → On c bs × (c.address ≢ g.address))
    → length code ≤ 6 * length cs
    → IsHeap m bs end
    → Keeps b m bs cs
    → Keeps g m bs code
    → b.address ≢ g.address
    → count * 6 ≡ length code
    → 0 < length code
    → end + length code + 14 ≤ limit
    → limit < 4294967296
    → length bs < fuel
    → Returns
        (λ (result, m'). Built old limit b cs true code result m')
        (emit_binary fuel (g.address + header_size) count m)
unfolding emit_binary memory_allocate memory_free message first_os_build.CString.copy_bytes
emit_refines fuel count limit {m} b g old bs {end} cs code grown others short h source built ne size
      some_code small top enough =
    let n : count * 6 % 4294967296 ≡ length code = omega arith in
    rw n (
      Maybe.bind (malloc_refines fuel (length code) bs h (omega arith) (omega arith) enough)
        λ (p, m1) (at, heap, bytes).
          let r : Granted (length code) bs (blocks_after (length code) end bs) p =
            subst (Granted (length code) bs (blocks_after (length code) end bs)) (sym at)
              (blocks_after-Granted (length code) end bs h.laid) in
          let some_p : (p == null) ≡ false = ground (arith, r.space) in
          let gone = kept_by code r built bytes in
          let ours = kept_by cs r source bytes in
          let (moved, new) =
            block_copy r.block g m1 _ code heap r.on r.used r.large gone
              (λ e. (r.kept g built.on built.used).1 (sym e))
              (omega (arith, end_after-le (length code) end bs)) in
          let f : Ptr → ℕ =
            copied m1.byte (r.block.address + header_size) (g.address + header_size)
              (length code) in
          let theirs =
            keeps_outside r.block b m1 f _ cs heap r.on (r.kept b source.on source.used).1
              (λ a out. ground (arith, r.large)) ours in
          rw (some_p, r.space, moved)
            (Maybe.bind
              (freed fuel {m = with_bytes m1 f} g _ (bytes-IsHeap f heap) gone.on
                (omega (arith, end_after-le (length code) end bs))
                (omega (arith, length-blocks_after (length code) end bs)))
              λ m2 (bs2, heap2, keeps, few, kept). returns (record {
                blocks = bs2;
                end = end_after (length code) end bs;
                heap = heap2;
                few = omega (arith, few, grown, length-blocks_after (length code) end bs);
                low = omega (arith, end_after-le (length code) end bs);
                kept = λ c o u. kept c (r.kept c (others c o u).0 u).0 u (others c o u).1;
                source = keeps b cs theirs ne;
                success = refl;
                binary = (
                  r.block,
                  keeps r.block code new (λ e. (r.kept g built.on built.used).1 (sym e)),
                  refl,
                  refl,
                  λ c o u. (r.kept c (others c o u).0 u).1,
                  some_code,
                  short,
                );
                report = refl;
              })))

-- The part of `compile_code` behind the loop.
outcome_refines :
    (fuel n limit : ℕ) {m : Memory} (b g : Block) (old bs : List Block) {end : ℕ} (cs : Bytes)
    (valid : Bool) (code : Bytes) (r : Bool × ℕ × Memory)
    → length bs ≤ length old + 1
    → ((c : Block) → On c old → c.free ≡ false → On c bs × (c.address ≢ g.address))
    → n ≤ length cs
    → IsHeap m bs end
    → Keeps b m bs cs
    → On g bs
    → g.free ≡ false
    → n * 6 ≤ g.size
    → b.address ≢ g.address
    → (valid ≡ true → 0 < length code)
    → end + n * 6 + 14 ≤ limit
    → limit < 4294967296
    → length bs < fuel
    → Compiled (g.address + header_size) 0 n m valid code r
    → Returns
        (λ (result, m'). Built old limit b cs valid code result m')
        (if r.0 then emit_binary fuel (g.address + header_size) r.1 r.2 else (do
          error ← message (codes "Invalid instruction") 18
          m ← memory_free fuel (g.address + header_size) r.2
          some (
            record { success = false; error_message = error; binary = null; binary_size = 0 },
            m,
          )))
unfolding memory_free message first_os_build.CString.copy_bytes
outcome_refines fuel n limit {m} b g old bs cs true code r grown others short h source og used large
      ne some_code small top enough c =
    let size = c.counted refl in
    let at : g.address + header_size ≡ g.address + header_size + 0 * 6 = omega arith in
    let written : bytes_at (with_bytes m c.byte) (g.address + header_size) (length code) ≡ code =
      ap₂ (λ m' a. bytes_at m' a (length code)) (sym c.bytes) at ∙ c.written refl in
    let theirs =
      keeps_outside g b m c.byte bs cs h og ne (λ a out. c.outside a (omega arith)) source in
    rw (c.ok, c.bytes)
      (emit_refines fuel r.1 limit b g old bs cs code grown others (omega (arith, size, c.fits))
        (bytes-IsHeap c.byte h) theirs
        (record { on = og; used = used; fits = omega (arith, size, c.fits); bytes = written }) ne
        (omega (arith, size)) (some_code refl) (omega (arith, size, c.fits)) top enough)
outcome_refines fuel n limit {m} b g old bs {end} cs false code r grown others short h source og
      used large ne some_code small top enough c =
    let theirs =
      keeps_outside g b m c.byte bs cs h og ne (λ a out. c.outside a (omega arith)) source in
    rw (c.ok, c.bytes)
      (Maybe.bind (freed fuel g bs (bytes-IsHeap c.byte h) og (omega arith) (omega arith))
        λ m' (bs', heap, keeps, few, kept). returns (record {
          blocks = bs';
          end = end;
          heap = heap;
          few = omega (arith, few, grown);
          low = omega arith;
          kept = λ c o u. kept c (others c o u).0 u (others c o u).1;
          source = keeps b cs theirs ne;
          success = refl;
          binary = refl;
          report = refl;
        }))

-- From a heap in which a block in use holds a source that is not empty and has no zero byte, where
-- the addresses leave room below 2 ^ 32 and the fuel is for two rounds more than there are blocks,
-- `compile_code` always ends, keeps the source and the other blocks in use, and adds at most two blocks.
-- If every line is an instruction, it succeeds, and a new block in use holds the code of all lines in
-- their order; else it fails, with no binary. The message is cut.
pub compile_code_refines :
    (fuel : ℕ) (stack : Bytes) {m : Memory} (b : Block) (bs : List Block) {end : ℕ} (cs : Bytes)
    → IsHeap m bs end
    → Keeps b m bs cs
    → IsText cs
    → 0 < length cs
    → end + 12 * length cs + 40 < 4294967296
    → length bs + 1 < fuel
    → let (valid, code) = assemble_all (lines [] cs) in
      Returns
        (λ (result, m'). Built bs (end + 12 * length cs + 40) b cs valid code result m')
        (compile_code fuel stack (b.address + header_size) (length cs) m)
unfolding compile_code memory_allocate bytes_at
compile_code_refines fuel stack {m} b bs {end} cs h source tc some_cs small enough =
    let n : ℕ = 6 * length cs in
    let size : 6 * length cs % 4294967296 ≡ n = omega arith in
    rw size (
      Maybe.bind (malloc_refines fuel n bs h (omega arith) (omega arith) (omega arith))
        λ (p, m1) (at, heap, bytes).
          let r : Granted n bs (blocks_after n end bs) p =
            subst (Granted n bs (blocks_after n end bs)) (sym at)
              (blocks_after-Granted n end bs h.laid) in
          let some_p : (p == null) ≡ false = ground (arith, r.space) in
          let ours = kept_by cs r source bytes in
          let apart =
            On-apart r.block b _ _ _ heap.laid r.on ours.on
              (λ e. (r.kept b source.on source.used).1 (sym e)) in
          rw (some_p, r.space)
            (Maybe.bind
              (compile_loop_refines stack (r.block.address + header_size) (length cs) _ _ 0 m1 [] cs
                refl ours.bytes (omega arith) tt tc (omega (arith, apart, r.large, ours.fits)))
              λ c built.
                outcome_refines fuel (length cs) (end + 12 * length cs + 40) b r.block bs _ cs _ _ c
                  (length-blocks_after n end bs) r.kept (omega arith) heap ours r.on r.used
                  (omega (arith, r.large)) (r.kept b source.on source.used).1
                  (λ v.
                    omega (arith, length-assemble_all (lines [] cs) v, lines-some [] cs some_cs))
                  (omega (arith, end_after-le n end bs)) small
                  (omega (arith, length-blocks_after n end bs)) built))
