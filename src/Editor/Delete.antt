-- ===== src/Editor/Delete.antt =====
-- kernel/editor.cpp: `editor_delete_char` against the text in the buffer.
use first_os_build.Prelude.{
  ℕ, ◌+◌, ◌-◌, ◌≤◌, ◌<◌, ◌≡◌, ◌≢◌, ◌⊎◌, refl, true, false, ◌&&◌, List, ◌++◌, Bytes, ◌==◌, ltb,
  length, length-append, length-take, length-drop, take, drop, arith, inl, inr, Returns, returns,
  ap, ap₂, sym, subst, ◌∙◌, Bool-cases, fun_ext,
}
use first_os_build.Prelude.Maybe
use first_os_build.Compiler.{bytes_at}
use first_os_build.Compiler.BytesAt.{bytes_at_ext, bytes_at-add, take-bytes_at, drop-bytes_at}
use first_os_build.Editor.{Editor, editor_delete_char, squeeze}
use first_os_build.Editor.Buffer.{Place, Edits, Grown}
use first_os_build.Editor.Text
use first_os_build.Editor.Text.{Text, IsWithin, key-IsWithin}
use first_os_build.Memory.{Ptr, Memory, null, header_size, heap_start_address, free}
use first_os_build.Memory.Blocks.{Block, On}
use first_os_build.Memory.Allocate.{IsHeap, blocks_after, end_after, malloc_refines}
use first_os_build.Memory.Release.{On-bounds}
use first_os_build.Memory.Laws.{Granted, On-apart, blocks_after-Granted}
use first_os_build.Memory.Free.{free-Merged}
use first_os_build.Memory.Realloc.{
  memcpy-copied, copied, with_bytes, length-blocks_after, bytes-IsHeap, end_after-le,
}

-- The bytes once all but the one at `x - 1` are copied from `s` to `p`.
abbrev squeezed : (Ptr → ℕ) → Ptr → Ptr → ℕ → ℕ → Ptr → ℕ
squeezed f p s x n = copied (copied f p s (x - 1)) (p + x - 1) (s + x) (n - x)

squeeze-squeezed :
    (p s x n : ℕ) (m : Memory)
    → 0 < x
    → x ≤ n
    → p + n < 4294967296
    → s + n < 4294967296
    → (p + n ≤ s) ⊎ (s + n ≤ p)
    → squeeze p s x n m ≡ with_bytes m (squeezed m.byte p s x n)
unfolding squeeze
squeeze-squeezed p s x n m some_x within hp hs apart =
    let first = memcpy-copied (x - 1) p s m (omega arith) (omega arith) (omega arith) in
    let second =
      memcpy-copied (n - x) (p + x - 1) (s + x) (with_bytes m (copied m.byte p s (x - 1)))
        (omega arith) (omega arith) (omega arith) in
    elim (Bool-cases (ltb x n)) [
      | inl more ↦ rw (more, first) second
      | inr last ↦ rw (last, first) (ap (with_bytes m) (fun_ext λ a. ground arith))
    ]

-- What the new buffer holds.
squeezed-bytes_at :
    (m : Memory) (f : Ptr → ℕ) (p s x n : ℕ) (cs : Bytes)
    → 0 < x
    → x ≤ n
    → (p + n ≤ s) ⊎ (s + n ≤ p)
    → bytes_at (with_bytes m f) s (n) ≡ cs
    → bytes_at (with_bytes m (squeezed f p s x (n))) p (n - 1) ≡ take (x - 1) cs ++ drop x cs
squeezed-bytes_at m f p s x n cs some_x within apart text =
    let m' : Memory = with_bytes m (squeezed f p s x n) in
    let parts : n - 1 ≡ (x - 1) + (n - x) = omega arith in
    ap (bytes_at m' p) parts
    ∙ bytes_at-add m' (x - 1) (n - x) p
    ∙ ap₂ (λ (a b : Bytes). a ++ b)
        (bytes_at_ext (with_bytes m f) m' (x - 1) s p (λ i lt. ground arith)
          ∙ sym (take-bytes_at (with_bytes m f) (x - 1) n s (omega arith))
          ∙ ap (take (x - 1)) text)
        (bytes_at_ext (with_bytes m f) m' (n - x) (s + x) (p + (x - 1)) (λ i lt. ground arith)
          ∙ sym (drop-bytes_at (with_bytes m f) x n s)
          ∙ ap (drop x) text)

-- The new buffer is filled and the old one freed.
squeezed-free :
    (fuel p n : ℕ) (e : Editor) (m : Memory) (b g : Block) (bs : List Block) {end : ℕ} (cs : Bytes)
    → IsHeap m bs end
    → On b bs
    → On g bs
    → g.free ≡ false
    → g.address ≢ b.address
    → p ≡ g.address + header_size
    → e.buffer ≡ b.address + header_size
    → n ≤ b.size
    → n ≤ g.size
    → 0 < e.cursor_x
    → e.cursor_x ≤ n
    → end ≤ 4294967295
    → length bs ≤ fuel
    → bytes_at m e.buffer n ≡ cs
    → Returns
        (λ m'.
          (bs' : List Block) × IsHeap m' bs' end
          × (length bs' ≤ length bs)
          × On g bs'
          × (bytes_at m' p (n - 1) ≡ take (e.cursor_x - 1) cs ++ drop e.cursor_x cs))
        (free fuel e.buffer (squeeze p e.buffer e.cursor_x n m))
squeezed-free fuel p n e m b g bs {end} cs h ob og used ne at from kb kg some_x within small enough
      text =
    let bb = On-bounds b bs heap_start_address end h.laid ob in
    let bg = On-bounds g bs heap_start_address end h.laid og in
    let apart = On-apart g b bs heap_start_address end h.laid og ob ne in
    let f = squeezed m.byte p (b.address + header_size) e.cursor_x n in
    let text' : bytes_at m (b.address + header_size) n ≡ cs =
      ap (λ q. bytes_at m q n) (sym from) ∙ text in
    rw
      (
        from,
        squeeze-squeezed p (b.address + header_size) e.cursor_x n m some_x within
            (omega (arith, bg)) (omega (arith, bb)) (omega (arith, apart)),
      )
      (Maybe.mono (free-Merged fuel {m = with_bytes m f} b bs (bytes-IsHeap f h) ob small enough)
        λ m' (bs', heap, _, merged, few, kept, bytes). (
          bs',
          heap,
          few,
          kept g og used ne,
          bytes_at_ext (with_bytes m f) m' (n - 1) p p
                (λ i lt. ap (λ (f : Ptr → ℕ). f (p + i)) bytes)
              ∙ squeezed-bytes_at m m.byte p (b.address + header_size) e.cursor_x n cs some_x within
                  (omega (arith, apart)) text',
        ))

delete_Place :
    (fuel : ℕ) {e : Editor} {m : Memory} (bs : List Block) {end : ℕ} (t : Text)
    → Edits e m bs end t
    → 0 < t.column
    → end + length t.chars + 14 < 4294967296
    → length bs < fuel
    → Place bs t.chars e.buffer
    → Returns
        (λ (e', m').
          Grown
            (length bs)
            (end + length t.chars + 14)
            e'
            m'
            (record {
              chars = take (t.column - 1) t.chars ++ drop t.column t.chars;
              column = t.column - 1;
            })
            (e.buffer == null))
        (editor_delete_char fuel e m)
unfolding editor_delete_char
delete_Place fuel bs t h some_x small enough (inl (nowhere, empty)) =
    absurd (omega (arith, h.within, ap (λ (cs : Bytes). length cs) empty))
delete_Place fuel {e} {m} bs {end} t h some_x small enough (inr (b, ob, busy, from, fits)) =
    let n : ℕ = length t.chars in
    let size : e.buffer_size ≡ n = h.holds.count in
    let test : (ltb 0 e.buffer_size && ltb 0 e.cursor_x) ≡ true =
      ground (arith, h.within, h.column, size) in
    let shorter : length (take (t.column - 1) t.chars ++ drop t.column t.chars) ≡ n - 1 = omega (
      arith,
      h.within,
      length-append (take (t.column - 1) t.chars) (drop t.column t.chars),
      length-take (t.column - 1) t.chars,
      length-drop t.column t.chars,
    ) in
    let some_e : (e.buffer == null) ≡ false = ground (arith, from) in
    rw (test, size)
      (Maybe.bind
        (malloc_refines fuel n bs h.holds.heap (omega (arith, h.within)) (omega arith) enough)
        λ (p, m') (at, heap, bytes).
          let g : Granted n bs (blocks_after n end bs) p =
            subst (Granted n bs (blocks_after n end bs)) (sym at)
              (blocks_after-Granted n end bs h.holds.heap.laid) in
          let some_p : (p == null) ≡ false = ground (arith, g.space) in
          let (ob', ne) = g.kept b ob busy in
          rw some_p (
            Maybe.bind
              (squeezed-free fuel p n e m' b g.block (blocks_after n end bs) t.chars heap ob' g.on
                g.used (λ same. ne (sym same)) g.space from fits g.large (omega (arith, h.column))
                (omega (arith, h.column, h.within)) (omega (arith, end_after-le n end bs))
                (omega (arith, length-blocks_after n end bs))
                (bytes_at_ext m m' n e.buffer e.buffer
                    (λ i lt. ap (λ (f : Ptr → ℕ). f (e.buffer + i)) bytes)
                  ∙ h.holds.bytes))
              λ m'' (bs', heap', few, og, text). returns (record {
                blocks = bs';
                end = end_after n end bs;
                edits = record {
                  holds = record {
                    heap = heap';
                    place = inr (g.block, og, g.used, g.space, omega (arith, shorter, g.large));
                    count = sym shorter;
                    bytes =
                        ap (bytes_at m'' p) shorter
                        ∙ text
                        ∙ ap (λ (x : ℕ). take (x - 1) t.chars ++ drop x t.chars) h.column;
                  };
                  column = ap (λ (x : ℕ). x - 1) h.column;
                  within = omega (arith, shorter, h.within);
                  rows = h.rows;
                  cols = h.cols;
                };
                few = omega (arith, length-blocks_after n end bs);
                low = omega (arith, end_after-le n end bs);
                null = some_p ∙ sym some_e;
              })))

-- In a heap where the addresses leave room below 2 ^ 32, on fuel for one round more than there are
-- blocks, a backspace always ends. The buffer then holds the text without the character that the column
-- counts off from its start, whatever the line of the cursor; in the first column nothing changes.
pub delete_char-Edits :
    (fuel : ℕ) {e : Editor} {m : Memory} (bs : List Block) {end : ℕ} (t : Text)
    → Edits e m bs end t
    → end + length t.chars + 14 < 4294967296
    → length bs < fuel
    → Returns
        (λ (e', m').
          Grown (length bs) (end + length t.chars + 14) e' m' (Text.erase t) (e.buffer == null))
        (editor_delete_char fuel e m)
unfolding editor_delete_char Text.erase
delete_char-Edits fuel {e} bs {end} t h small enough = elim (Bool-cases (ltb 0 t.column)) [
  | inl some_x ↦ rw some_x (delete_Place fuel bs t h (ground arith) small enough h.holds.place)
  | inr first ↦
      let test : (ltb 0 e.buffer_size && ltb 0 e.cursor_x) ≡ false = ground (arith, h.column) in
      rw (first, test)
        (returns (record {
          blocks = bs;
          end = end;
          edits = h;
          few = omega arith;
          low = omega arith;
          null = refl;
        }))
]
