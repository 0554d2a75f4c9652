-- ===== src/Editor/Moved.antt =====
-- kernel/editor.cpp: `editor_insert_char` moves the text to a larger buffer.
use first_os_build.Prelude.{
  ℕ, suc, ◌+◌, ◌%◌, ◌≤◌, ◌<◌, ◌≡◌, ◌≢◌, refl, false, List, [], ◌∷◌, ◌++◌, Bytes, ◌==◌, leb, length,
  length-append, arith, inl, inr, Returns, returns, ap, ap₂, sym, ◌∙◌, Bool-cases,
}
use first_os_build.Prelude.Maybe
use first_os_build.Compiler.{bytes_at}
use first_os_build.Compiler.BytesAt.{bytes_at_ext, bytes_at-add}
use first_os_build.Editor.Buffer.{Place, Holds}
use first_os_build.Editor.{Editor, move_text, advance, set_byte}
use first_os_build.Memory.{Ptr, Memory, null, header_size, heap_start_address}
use first_os_build.Memory.Blocks.{Block, On}
use first_os_build.Memory.Allocate.{IsHeap}
use first_os_build.Memory.Release.{On-bounds}
use first_os_build.Memory.Laws.{On-apart}
use first_os_build.Memory.Free.{free-Merged}
use first_os_build.Memory.Realloc.{memcpy-copied, copied, with_bytes, bytes-IsHeap}

bytes_at-suc :
    (m : Memory) (n p : ℕ) → bytes_at m p (suc n) ≡ bytes_at m p n ++ (m.byte (p + n) ∷ [])
unfolding bytes_at
bytes_at-suc m n p =
    let next : suc n ≡ n + 1 = omega arith in ap (bytes_at m p) next ∙ bytes_at-add m n 1 p

-- "Copy existing content": the text moves from one block in use to another, and the first is freed.
move_text-moved :
    (fuel p k : ℕ) (e : Editor) (m : Memory) (b g : Block) (bs : List Block) {end : ℕ}
    → IsHeap m bs end
    → On b bs
    → On g bs
    → g.free ≡ false
    → g.address ≢ b.address
    → p ≡ g.address + header_size
    → e.buffer ≡ b.address + header_size
    → e.buffer_size ≡ k
    → k ≤ b.size
    → k ≤ g.size
    → end ≤ 4294967295
    → length bs ≤ fuel
    → Returns
        (λ m'.
          (bs' : List Block) × IsHeap m' bs' end
          × (length bs' ≤ length bs)
          × On g bs'
          × ((i : ℕ) → i < k → m'.byte (p + i) ≡ m.byte (b.address + header_size + i)))
        (move_text fuel p e m)
unfolding move_text
move_text-moved fuel p k e m b g bs {end} h ob og used ne at from count kb kg small enough =
    let bb = On-bounds b bs heap_start_address end h.laid ob in
    let bg = On-bounds g bs heap_start_address end h.laid og in
    let apart = On-apart g b bs heap_start_address end h.laid og ob ne in
    let moved = copied m.byte p (b.address + header_size) k in
    let here : (b.address + header_size == null) ≡ false = ground arith in
    rw
      (
        from,
        here,
        count,
        memcpy-copied k p (b.address + header_size) m (omega (arith, bg)) (omega (arith, bb))
            (omega (arith, apart)),
      )
      (Maybe.mono
        (free-Merged fuel {m = with_bytes m moved} b bs (bytes-IsHeap moved h) ob small enough)
        λ m' (bs', heap, _, merged, few, kept, bytes). (
          bs',
          heap,
          few,
          kept g og used ne,
          λ i lt. ap (λ (f : Ptr → ℕ). f (p + i)) bytes ∙ ground arith,
        ))

advance-Holds :
    (e : Editor) {m : Memory} {bs : List Block} {end : ℕ} {cs : Bytes}
    → Holds e m bs end cs
    → Holds (advance e) m bs end cs
unfolding advance
advance-Holds e h = elim (Bool-cases (leb e.screen_cols ((e.cursor_x + 1) % 4294967296))) [
  | inl wraps ↦
      rw wraps (record { heap = h.heap; place = h.place; count = h.count; bytes = h.bytes })
  | inr stays ↦
      rw stays (record { heap = h.heap; place = h.place; count = h.count; bytes = h.bytes })
]

-- "Insert new character and null terminator"
pub inserted :
    (c p k : ℕ) (e : Editor) (m : Memory) (g : Block) (bs : List Block) {end : ℕ} (cs : Bytes)
    → IsHeap m bs end
    → On g bs
    → g.free ≡ false
    → p ≡ g.address + header_size
    → length cs + 2 ≤ g.size
    → k ≡ length cs + 1
    → e.buffer_size ≡ length cs
    → bytes_at m p (length cs) ≡ cs
    → Holds
        (advance (record e { buffer = p; buffer_size = k }))
        (set_byte (p + e.buffer_size + 1) 0 (set_byte (p + e.buffer_size) c m))
        bs
        end
        (cs ++ (c ∷ []))
inserted c p k e m g bs {end} cs h og used at large next count text =
    let f : Ptr → ℕ =
      (set_byte (p + e.buffer_size + 1) 0 (set_byte (p + e.buffer_size) c m)).byte in
    let longer : length (cs ++ (c ∷ [])) ≡ suc (length cs) =
      omega (arith, length-append cs (c ∷ [])) in
    advance-Holds (record e { buffer = p; buffer_size = k })
      (record {
        heap = bytes-IsHeap f h;
        place = inr (g, og, used, at, omega (arith, longer));
        count = omega (arith, longer);
        bytes =
            ap (bytes_at (with_bytes m f) p) longer
            ∙ bytes_at-suc (with_bytes m f) (length cs) p
            ∙ ap₂ (λ (t : Bytes) (x : ℕ). t ++ (x ∷ []))
                (bytes_at_ext m (with_bytes m f) (length cs) p p (λ i lt. ground arith) ∙ text)
                (ground arith);
      })

-- The text reaches the new buffer, wherever it stood.
pub text_moved :
    (fuel p : ℕ) (e : Editor) (m : Memory) (g : Block) (bs bs' : List Block) {end : ℕ} (cs : Bytes)
    → IsHeap m bs' end
    → ((b : Block) → On b bs → b.free ≡ false → On b bs' × (b.address ≢ g.address))
    → On g bs'
    → g.free ≡ false
    → p ≡ g.address + header_size
    → length cs ≤ g.size
    → end ≤ 4294967295
    → length bs' ≤ fuel
    → Place bs cs e.buffer
    → e.buffer_size ≡ length cs
    → bytes_at m e.buffer (length cs) ≡ cs
    → Returns
        (λ m'.
          (bs'' : List Block) × IsHeap m' bs'' end
          × (length bs'' ≤ length bs')
          × On g bs''
          × (bytes_at m' p (length cs) ≡ cs))
        (move_text fuel p e m)
unfolding move_text bytes_at
text_moved fuel p e m g bs bs' cs h kept og used at large small enough (inl (nowhere, empty)) count
      text =
    rw (nowhere, empty) (returns (bs', h, omega arith, og, refl))
text_moved fuel p e m g bs bs' cs h kept og used at large small enough
      (inr (b, ob, busy, from, fits)) count text =
    let (ob', ne) = kept b ob busy in
    Maybe.mono
      (move_text-moved fuel p (length cs) e m b g bs' h ob' og used (λ same. ne (sym same)) at from
        count fits large small enough)
      λ m' (bs'', heap, few, og', same). (
        bs'',
        heap,
        few,
        og',
        bytes_at_ext m m' (length cs) (b.address + header_size) p same
            ∙ ap (λ q. bytes_at m q (length cs)) (sym from)
            ∙ text,
      )
