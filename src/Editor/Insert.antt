-- ===== src/Editor/Insert.antt =====
-- kernel/editor.cpp: `editor_insert_char` against the text in the buffer.
use first_os_build.Prelude.{
  ℕ, ◌+◌, ◌-◌, ◌%◌, ◌≤◌, ◌<◌, ◌≡◌, refl, false, List, [], ◌∷◌, ◌++◌, Bytes, ◌==◌, if◌then◌else◌,
  leb, length, length-append, arith, Returns, returns, ap, sym, subst, ◌∙◌,
}
use first_os_build.Prelude.Maybe
use first_os_build.Compiler.BytesAt.{bytes_at_ext}
use first_os_build.Editor.Buffer.{Holds, Edits, Grown}
use first_os_build.Editor.Text
use first_os_build.Editor.Text.{Text, IsWithin}
use first_os_build.Editor.{Editor, editor_insert_char, advance}
use first_os_build.Memory.{Ptr, Memory, null}
use first_os_build.Memory.Blocks.{Block}
use first_os_build.Memory.Allocate.{blocks_after, end_after, malloc_refines}
use first_os_build.Memory.Laws.{Granted, blocks_after-Granted}
use first_os_build.Memory.Realloc.{length-blocks_after, end_after-le}
use first_os_build.Editor.Moved.{inserted, text_moved}

-- The editor after the insertion, from where its buffer is.
abbrev grown_to : Ptr → ℕ → Editor → Editor
grown_to p k e = advance (record e { buffer = p; buffer_size = k })

insert_Holds :
    (fuel c : ℕ) {e : Editor} {m : Memory} (bs : List Block) {end : ℕ} (cs : Bytes)
    → Holds e m bs end cs
    → end + length cs + 14 < 4294967296
    → length bs < fuel
    → Returns
        (λ (e', m').
          (bs' : List Block) × (end' : ℕ) × Holds e' m' bs' end' (cs ++ (c ∷ []))
          × (length bs' ≤ length bs + 1)
          × (end' ≤ end + length cs + 14)
          × ((p : Ptr) × (k : ℕ) × ((p == null) ≡ false) × (e' ≡ grown_to p k e)))
        (editor_insert_char fuel c e m)
unfolding editor_insert_char
insert_Holds fuel c {e} {m} bs {end} cs h small enough =
    let n : ℕ = length cs + 2 in
    let size : (e.buffer_size + 2) % 4294967296 ≡ n = omega (arith, h.count) in
    rw size (
      Maybe.bind (malloc_refines fuel n bs h.heap (omega arith) (omega arith) enough)
        λ (p, m') (at, heap, bytes).
          let g : Granted n bs (blocks_after n end bs) p =
            subst (Granted n bs (blocks_after n end bs)) (sym at)
              (blocks_after-Granted n end bs h.heap.laid) in
          let some_p : (p == null) ≡ false = ground (arith, g.space) in
          rw some_p (
            Maybe.bind
              (text_moved fuel p e m' g.block bs (blocks_after n end bs) cs heap g.kept g.on g.used
                g.space (omega (arith, g.large)) (omega (arith, end_after-le n end bs))
                (omega (arith, length-blocks_after n end bs)) h.place h.count
                (bytes_at_ext m m' (length cs) e.buffer e.buffer
                    (λ i lt. ap (λ (f : Ptr → ℕ). f (e.buffer + i)) bytes)
                  ∙ h.bytes))
              λ m'' (bs', heap', few, og, text). returns (
                bs',
                end_after n end bs,
                inserted c p (n - 1) e m'' g.block bs' cs heap' og g.used g.space g.large
                    (omega arith) h.count text,
                omega (arith, length-blocks_after n end bs),
                omega (arith, end_after-le n end bs),
                (p, n - 1, some_p, refl),
              )))

-- In a heap where the addresses leave room below 2 ^ 32, on fuel for one round more than there are
-- blocks, inserting a character always ends. The buffer then holds the text with the character
-- behind its end, wherever the cursor is.
pub insert_char-Holds :
    (fuel c : ℕ) {e : Editor} {m : Memory} (bs : List Block) {end : ℕ} (cs : Bytes)
    → Holds e m bs end cs
    → end + length cs + 14 < 4294967296
    → length bs < fuel
    → Returns
        (λ (e', m'). (bs' : List Block) × (end' : ℕ) × Holds e' m' bs' end' (cs ++ (c ∷ [])))
        (editor_insert_char fuel c e m)
insert_char-Holds fuel c bs cs h small enough =
    Maybe.mono (insert_Holds fuel c bs cs h small enough)
      λ (e', m') (bs', end', holds, few, low, shape). (bs', end', holds)

advance-fields :
    (e : Editor)
    → e.screen_cols ≡ 80
    → e.cursor_x < 4294967295
    → ((advance e).cursor_x ≡ (if leb 80 (e.cursor_x + 1) then 0 else e.cursor_x + 1))
      × ((advance e).screen_rows ≡ e.screen_rows)
      × ((advance e).screen_cols ≡ 80)
      × ((advance e).buffer ≡ e.buffer)
unfolding advance
advance-fields e cols small = ground arith

-- The same for the text and the column.
pub insert_char-Edits :
    (fuel c : ℕ) {e : Editor} {m : Memory} (bs : List Block) {end : ℕ} (t : Text)
    → Edits e m bs end t
    → end + length t.chars + 14 < 4294967296
    → length bs < fuel
    → Returns
        (λ (e', m'). Grown (length bs) (end + length t.chars + 14) e' m' (Text.add 80 c t) false)
        (editor_insert_char fuel c e m)
unfolding Text.add
insert_char-Edits fuel c {e} bs t h small enough =
    Maybe.mono (insert_Holds fuel c bs t.chars h.holds small enough)
      λ (e', m') (bs', end', holds, few, low, (p, k, some_p, shape)).
        let fields =
          advance-fields (record e { buffer = p; buffer_size = k }) h.cols
            (omega (arith, h.column, h.within)) in
        record {
          blocks = bs';
          end = end';
          edits = record {
            holds = holds;
            column = ap (λ (x : Editor). x.cursor_x) shape ∙ fields.0 ∙ ground arith;
            within = ground (arith, length-append t.chars (c ∷ []));
            rows = ap (λ (x : Editor). x.screen_rows) shape ∙ fields.1 ∙ h.rows;
            cols = ap (λ (x : Editor). x.screen_cols) shape ∙ fields.2;
          };
          few = few;
          low = low;
          null =
              ap (λ (x : Editor). x.buffer == null) shape ∙ ap (λ q. q == null) fields.3 ∙ some_p;
        }
