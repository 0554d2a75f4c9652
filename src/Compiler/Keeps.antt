-- ===== src/Compiler/Keeps.antt =====
-- kernel/compiler.cpp: blocks of the heap that keep their bytes.
use first_os_build.Prelude.{
  ℕ, ◌+◌, ◌≤◌, ◌<◌, ◌≡◌, ◌≢◌, ◌⊎◌, false, List, Bytes, arith, length, ap, ◌∙◌, sym, Returns,
}
use first_os_build.Prelude.Maybe
use first_os_build.Compiler.{bytes_at}
use first_os_build.Compiler.BytesAt.{bytes_at_ext}
use first_os_build.Memory.{Ptr, Memory, header_size, heap_start_address, free, memcpy}
use first_os_build.Memory.Allocate.{IsHeap}
use first_os_build.Memory.Blocks.{Block, On}
use first_os_build.Memory.Free.{free-Merged}
use first_os_build.Memory.Laws.{Granted, On-apart}
use first_os_build.Memory.Realloc.{with_bytes, copied, memcpy-copied}
use first_os_build.Memory.Release.{On-bounds}

-- A block in use that holds the bytes.
pub record Keeps (b : Block) (m : Memory) (bs : List Block) (cs : Bytes) : Type 0 where
  pub on : On b bs
  pub used : b.free ≡ false
  pub fits : length cs ≤ b.size
  pub bytes : bytes_at m (b.address + header_size) (length cs) ≡ cs

-- Other blocks keep their bytes when a block is freed.
pub freed :
    (fuel : ℕ) {m : Memory} (g : Block) (bs : List Block) {end : ℕ}
    → IsHeap m bs end
    → On g bs
    → end ≤ 4294967295
    → length bs ≤ fuel
    → Returns
        (λ m'.
          (bs' : List Block) × IsHeap m' bs' end
          × ((b : Block) (cs : Bytes) → Keeps b m bs cs → b.address ≢ g.address → Keeps b m' bs' cs)
          × (length bs' ≤ length bs)
          × ((b : Block) → On b bs → b.free ≡ false → b.address ≢ g.address → On b bs'))
        (free fuel (g.address + header_size) m)
freed fuel {m} g bs h og small enough =
    Maybe.mono (free-Merged fuel g bs h og small enough)
      λ m' (bs', heap, _, merged, few, kept, bytes). (
        bs',
        heap,
        λ b cs keeps ne. record {
          on = kept b keeps.on keeps.used ne;
          used = keeps.used;
          fits = keeps.fits;
          bytes =
              bytes_at_ext m m' (length cs) _ _
                (λ i lt. ap (λ (f : Ptr → ℕ). f (b.address + header_size + i)) bytes)
              ∙ keeps.bytes;
        },
        few,
        kept,
      )

-- The same bytes in a heap after an allocation.
pub kept_by :
    {n : ℕ} {b : Block} {bs bs' : List Block} {p : Ptr} {m m' : Memory} (cs : Bytes)
    → Granted n bs bs' p
    → Keeps b m bs cs
    → m'.byte ≡ m.byte
    → Keeps b m' bs' cs
kept_by {b = b} {m = m} {m' = m'} cs g keeps bytes = record {
  on = (g.kept b keeps.on keeps.used).0;
  used = keeps.used;
  fits = keeps.fits;
  bytes =
      bytes_at_ext m m' (length cs) _ _
        (λ i lt. ap (λ (f : Ptr → ℕ). f (b.address + header_size + i)) bytes)
      ∙ keeps.bytes;
}

-- A write into the space of one block leaves what the others keep.
pub keeps_outside :
    (g b : Block) (m : Memory) (f : Ptr → ℕ) (bs : List Block) {end : ℕ} (cs : Bytes)
    → IsHeap m bs end
    → On g bs
    → b.address ≢ g.address
    → ((a : ℕ)
        → (a < g.address + header_size) ⊎ (g.address + header_size + g.size ≤ a)
        → f a ≡ m.byte a)
    → Keeps b m bs cs
    → Keeps b (with_bytes m f) bs cs
keeps_outside g b m f bs {end} cs h og ne outside keeps =
    let apart = On-apart g b bs heap_start_address end h.laid og keeps.on (λ e. ne (sym e)) in
    record {
      on = keeps.on;
      used = keeps.used;
      fits = keeps.fits;
      bytes =
          bytes_at_ext m (with_bytes m f) (length cs) _ _
            (λ i lt. outside (b.address + header_size + i) (omega (arith, apart, keeps.fits)))
          ∙ keeps.bytes;
    }

-- What one block keeps, copied into another.
pub block_copy :
    (r g : Block) (m : Memory) (bs : List Block) {end : ℕ} (cs : Bytes)
    → IsHeap m bs end
    → On r bs
    → r.free ≡ false
    → length cs ≤ r.size
    → Keeps g m bs cs
    → r.address ≢ g.address
    → end ≤ 4294967294
    → let f = copied m.byte (r.address + header_size) (g.address + header_size) (length cs) in
      (memcpy (r.address + header_size) (g.address + header_size) (length cs) m ≡ with_bytes m f)
      × Keeps r (with_bytes m f) bs cs
block_copy r g m bs {end} cs h on used fits keeps ne small =
    let bounds_r = On-bounds r bs heap_start_address end h.laid on in
    let bounds_g = On-bounds g bs heap_start_address end h.laid keeps.on in
    let apart = On-apart r g bs heap_start_address end h.laid on keeps.on ne in
    (
      memcpy-copied (length cs) _ _ m (omega (arith, bounds_r, fits))
          (omega (arith, bounds_g, keeps.fits)) (omega (arith, apart, fits, keeps.fits)),
      record {
        on = on;
        used = used;
        fits = fits;
        bytes =
            bytes_at_ext m _ (length cs) (g.address + header_size) _ (λ i lt. ground arith)
            ∙ keeps.bytes;
      },
    )
