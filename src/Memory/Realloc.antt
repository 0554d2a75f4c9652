-- ===== src/Memory/Realloc.antt =====
-- kernel/memory.cpp: `memcpy` and `realloc`.
use first_os_build.Prelude.{
  ℕ, zero, suc, ◌+◌, ◌-◌, ◌%◌, ◌≤◌, ◌<◌, ◌≡◌, ◌≢◌, ◌⊎◌, false, ◌&&◌, List, [], ◌∷◌, leb, ltb, ◌==◌,
  if◌then◌else◌, arith, length, ◌∙◌, ◌>>=◌, length-append, fun_ext, ap,
}
use first_os_build.Prelude.Maybe
use first_os_build.Memory.{Ptr, header_size, Memory, free, memcpy}
use first_os_build.Memory.Blocks.{Block, On, first_fit}
use first_os_build.Memory.Chain.{Chain, end, link}
use first_os_build.Memory.Allocate.{IsHeap, new_at, blocks_after, end_after}
use first_os_build.Memory.Release.{length-mark}
use first_os_build.Memory.Free.{IsFreed}

abbrev pub with_bytes : Memory → (Ptr → ℕ) → Memory
with_bytes m f = record m { byte = f }

-- `n` bytes from `s` put at `d`
abbrev pub copied : (Ptr → ℕ) → Ptr → Ptr → ℕ → Ptr → ℕ
copied f d s n a = if leb d a && ltb a (d + n) then f (s + (a - d)) else f a

-- Between areas that do not overlap and do not wrap, `memcpy` copies byte for byte and changes
-- nothing else.
pub memcpy-copied :
    (n d s : ℕ) (m : Memory)
    → d + n < 4294967296
    → s + n < 4294967296
    → (d + n ≤ s) ⊎ (s + n ≤ d)
    → memcpy d s n m ≡ with_bytes m (copied m.byte d s n)
unfolding memcpy
memcpy-copied zero d s m hd hs apart = ap (with_bytes m) (fun_ext λ a. ground arith)
memcpy-copied (suc n) d s m hd hs apart =
    let nd : (d + 1) % 4294967296 ≡ d + 1 = omega arith in
    let ns : (s + 1) % 4294967296 ≡ s + 1 = omega arith in
    rw (nd, ns)
      (memcpy-copied n (d + 1) (s + 1) (with_bytes m (λ a. if a == d then m.byte s else m.byte a))
          (omega arith) (omega arith) (omega arith)
        ∙ ap (with_bytes m) (fun_ext λ a. ground arith))

pub bytes-Chain :
    (f : Ptr → ℕ) {m : Memory} {p : Ptr} {bs : List Block}
    → Chain m p bs
    → Chain (with_bytes m f) p bs
bytes-Chain f end = end
bytes-Chain f (link ne at eq c) = link ne at eq (bytes-Chain f c)

pub bytes-IsHeap :
    (f : Ptr → ℕ) {m : Memory} {bs : List Block} {end : ℕ}
    → IsHeap m bs end
    → IsHeap (with_bytes m f) bs end
bytes-IsHeap f h = record { starts = h.starts; chain = bytes-Chain f h.chain; laid = h.laid }

pub length-blocks_after : (n e : ℕ) (bs : List Block) → length (blocks_after n e bs) ≤ length bs + 1
unfolding blocks_after
length-blocks_after n e bs =
    ground (arith, length-append bs (new_at e n ∷ []), length-mark (first_fit n bs) false bs)

pub end_after-le : (n e : ℕ) (bs : List Block) → end_after n e bs ≤ e + header_size + n
unfolding end_after
end_after-le n e bs = ground arith

-- The caller of `realloc` gets the space of a block in use of at least `n` bytes, that was not in use before.
-- The heap, which ended at `e`, ends below 2 ^ 32; the old block `b` is freed whole, and every other block in use
-- is as it was.
pub record IsMoved (b : Block) (bs : List Block) (e n : ℕ) (p : Ptr) (m' : Memory) : Type 0 where
  pub blocks : List Block
  pub end : ℕ
  pub heap : IsHeap m' blocks end
  pub low : end ≤ e + header_size + n
  pub block : Block
  pub on : On block blocks
  pub space : p ≡ block.address + header_size
  pub large : n ≤ block.size
  pub used : block.free ≡ false
  pub fresh : (c : Block) → On c bs → c.free ≡ false → c.address ≢ block.address
  pub freed : IsFreed b blocks
  pub kept : (c : Block) → On c bs → c.free ≡ false → c.address ≢ b.address → On c blocks
