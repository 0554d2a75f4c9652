-- ===== src/Editor/Keys.antt =====
-- kernel/editor.cpp: what each key that a keyboard can give does to the text in the buffer.
use first_os_build.Prelude.{
  ℕ, ◌+◌, ◌≤◌, ◌<◌, ◌≡◌, refl, Bool, true, false, not, ◌&&◌, ◌||◌, List, Bytes, length, arith, inl,
  inr, Returns, returns, Bool-cases, leb, ltb, ◌==◌, ap, ◌∙◌, sym, subst,
}
use mathlib.Core.Option.{Option}
use first_os_build.Prelude.Maybe
use first_os_build.Compiler.{bytes_at}
use first_os_build.Editor.{Editor, Desk, press, enter_key, backspace_key, text_key}
use first_os_build.Editor.Buffer.{Place, Holds, Edits, Grown}
use first_os_build.Editor.Delete.{delete_char-Edits}
use first_os_build.Editor.Insert.{insert_char-Edits}
use first_os_build.Editor.Session.{inserts}
use first_os_build.Editor.Text
use first_os_build.Editor.Text.{Text}
use first_os_build.Keyboard.Layout.{is_typable, Typable}
use first_os_build.Memory.{Ptr, Memory, null}
use first_os_build.Memory.Blocks.{Block}

Holds-marked :
    (e e' : Editor) {m : Memory} {bs : List Block} {end : ℕ} {cs : Bytes}
    → e'.buffer ≡ e.buffer
    → e'.buffer_size ≡ e.buffer_size
    → Holds e m bs end cs
    → Holds e' m bs end cs
Holds-marked e e' {m} {bs} {end} {cs} buffer size h = record {
  heap = h.heap;
  place = subst (Place bs cs) (sym buffer) h.place;
  count = size ∙ h.count;
  bytes = ap (λ p. bytes_at m p (length cs)) buffer ∙ h.bytes;
}

Edits-marked :
    (e e' : Editor) {m : Memory} {bs : List Block} {end : ℕ} (t t' : Text)
    → e'.buffer ≡ e.buffer
    → e'.buffer_size ≡ e.buffer_size
    → e'.screen_rows ≡ e.screen_rows
    → e'.screen_cols ≡ e.screen_cols
    → t'.chars ≡ t.chars
    → e'.cursor_x ≡ t'.column
    → t'.column ≤ t.column
    → Edits e m bs end t
    → Edits e' m bs end t'
Edits-marked e e' {m} {bs} {end} t t' buffer size rows cols chars column left h = record {
  holds = subst (Holds e' m bs end) (sym chars) (Holds-marked e e' buffer size h.holds);
  column = column;
  within = omega (arith, h.within, ap (λ (cs : Bytes). length cs) chars);
  rows = rows ∙ h.rows;
  cols = cols ∙ h.cols;
}

Grown-marked :
    (e e' : Editor) {m : Memory} {n limit : ℕ} {is_null : Bool} (t t' : Text)
    → e'.buffer ≡ e.buffer
    → e'.buffer_size ≡ e.buffer_size
    → e'.screen_rows ≡ e.screen_rows
    → e'.screen_cols ≡ e.screen_cols
    → t'.chars ≡ t.chars
    → e'.cursor_x ≡ t'.column
    → t'.column ≤ t.column
    → Grown n limit e m t is_null
    → Grown n limit e' m t' is_null
Grown-marked e e' t t' buffer size rows cols chars column left g = record {
  blocks = g.blocks;
  end = g.end;
  edits = Edits-marked e e' t t' buffer size rows cols chars column left g.edits;
  few = g.few;
  low = g.low;
  null = ap (λ p. p == null) buffer ∙ g.null;
}

module _ (call : Ptr → Memory → Option Memory) (stack : Bytes) (fuel : ℕ) (d : Desk)
    (bs : List Block) {end : ℕ} (t : Text) (h : Edits d.editor d.memory bs end t)
    (small : end + length t.chars + 14 < 4294967296) (enough : length bs < fuel) where
  -- The desk after a key, while the editor goes on: only the text has changed.
  abbrev pub After : Text → Bool → Desk → Type 0
  After t' is_null d' =
      Grown (length bs) (end + length t.chars + 14) d'.editor d'.memory t' is_null
      × (d'.keyboard ≡ d.keyboard)
      × (d'.kernel ≡ d.kernel)

  enter_refines : Returns (After (Text.enter t) false) (enter_key call stack fuel d)
  unfolding enter_key Text.enter Text.add
  enter_refines = Maybe.bind (insert_char-Edits fuel b'\n' bs t h small enough) λ (e, m) g.
      returns (
        Grown-marked e _ (Text.add 80 b'\n' t) (Text.enter t) refl refl refl refl refl refl
            (omega arith) g,
        refl,
        refl,
      )

  backspace_refines :
      Returns (After (Text.erase t) (d.editor.buffer == null)) (backspace_key call stack fuel d)
  unfolding backspace_key
  backspace_refines = Maybe.bind (delete_char-Edits fuel bs t h small enough) λ (e, m) g. returns (
    Grown-marked e _ (Text.erase t) (Text.erase t) refl refl refl refl refl g.edits.column
        (omega arith) g,
    refl,
    refl,
  )

  text_refines :
      (c : ℕ)
      → (leb 32 c && ltb c 127) ≡ true
      → Returns (After (Text.add 80 c t) false) (text_key call stack fuel c d)
  unfolding text_key
  text_refines c printable = rw printable (
      Maybe.bind (insert_char-Edits fuel c bs t h small enough) λ (e, m) g. returns (
        Grown-marked e _ (Text.add 80 c t) (Text.add 80 c t) refl refl refl refl refl g.edits.column
            (omega arith) g,
        refl,
        refl,
      ))

  nothing_refines :
      (c : ℕ)
      → (leb 32 c && ltb c 127) ≡ false
      → Returns (After t (d.editor.buffer == null)) (text_key call stack fuel c d)
  unfolding text_key
  nothing_refines c other = rw other (
      returns (
        record {
          blocks = bs;
          end = end;
          edits = h;
          few = omega arith;
          low = omega arith;
          null = refl;
        },
        refl,
        refl,
      ))

  -- A typable character changes the text as `Text.key`, the keyboard and the screen not at all.
  pub press_refines :
      (c : ℕ)
      → Typable c
      → Returns
          (λ (running, d').
            (running ≡ true)
            × After (Text.key 80 c t) ((d.editor.buffer == null) && not (inserts c)) d')
          (press call stack fuel c d)
  unfolding press Text.key inserts is_typable
  press_refines c typable = elim (Bool-cases (c == b'\n')) [
    | inl newline ↦
        let enter : (c == b'\r' || c == b'\n') ≡ true = ground arith in
        let touched : ((d.editor.buffer == null) && not (inserts c)) ≡ false = ground arith in
        rw (touched, enter, newline)
          (Maybe.map_lem (λ d'. (true, d')) enter_refines λ d' after. (refl {a = true}, after))
    | inr other ↦
        let enter : (c == b'\r' || c == b'\n') ≡ false = ground arith in
        elim (Bool-cases (c == 8)) [
          | inl back ↦
              let same : ((d.editor.buffer == null) && not (inserts c))
                  ≡ (d.editor.buffer == null) =
                ground arith in
              rw (same, enter, other, back)
                (Maybe.map_lem (λ d'. (true, d')) backspace_refines
                  λ d' after. (refl {a = true}, after))
          | inr plain ↦
              let quit : (c == 17) ≡ false = ground arith in
              let save : (c == 19) ≡ false = ground arith in
              let run : (c == 18) ≡ false = ground arith in
              elim (Bool-cases (leb 32 c && ltb c 127)) [
                | inl printable ↦
                    let touched : ((d.editor.buffer == null) && not (inserts c)) ≡ false =
                      ground arith in
                    rw (touched, enter, other, plain, quit, save, run, printable)
                      (Maybe.map_lem (λ d'. (true, d')) (text_refines c printable)
                        λ d' after. (refl {a = true}, after))
                | inr tab ↦
                    let same : ((d.editor.buffer == null) && not (inserts c))
                        ≡ (d.editor.buffer == null) =
                      ground arith in
                    rw (same, enter, other, plain, quit, save, run, tab)
                      (Maybe.map_lem (λ d'. (true, d')) (nothing_refines c tab)
                        λ d' after. (refl {a = true}, after))
              ]
        ]
  ]
