-- ===== src/Editor/Refresh.antt =====
-- kernel/editor.cpp: `editor_refresh_screen` against the page of Editor/Page.antt.
use first_os_build.Prelude.{
  ℕ, zero, suc, ◌+◌, ◌-◌, ◌≤◌, ◌≡◌, refl, true, false, [], ◌∷◌, ◌++◌, Bytes, codes, append-nil,
  ◌==◌, if◌then◌else◌, ltb, length, take, take-past, drop, replicate, arith, inl, inr, Returns,
  returns, ap, ap₂, sym, subst, subst₂, ◌∙◌, Bool-cases, is_text-IsText,
}
use first_os_build.Prelude.Maybe
use first_os_build.Compiler.{bytes_at}
use first_os_build.Compiler.BytesAt.{take-bytes_at, drop-bytes_at, length-bytes_at}
use first_os_build.Editor.{
  Editor, editor_refresh_screen, show_lines, show_welcome, show_status, write_spaces, line_size,
}
use first_os_build.Editor.Page.{line, shown, welcome, status, page, blanked}
use first_os_build.Editor.Status.{show_status-constant}
use first_os_build.Memory.{Memory, null}
use first_os_build.Terminal.{KernelState, terminal_write, terminal_movecursor}
use first_os_build.Terminal.Refine.{Shows, write_char_refines}
use first_os_build.Terminal.Texts.{
  type_text-append, write_refines, write_string_refines, clear_refines,
}
use first_os_build.Terminal.View
use first_os_build.Terminal.View.{View}

movecursor-Shows :
    {color : ℕ} {v : View} {s : KernelState} (x y : ℕ)
    → Shows color v s
    → Shows color v (terminal_movecursor x y s)
unfolding terminal_movecursor
movecursor-Shows x y h = ground arith

line_size-line : (n p : ℕ) (m : Memory) → line_size n p m ≡ length (line (bytes_at m p n))
unfolding line_size line bytes_at
line_size-line zero p m = refl
line_size-line (suc n) p m = ground (arith, line_size-line n (p + 1) m)

length-line : (cs : Bytes) → length (line cs) ≤ length cs
unfolding line
length-line [] = omega arith
length-line (c ∷ cs) = ground (arith, length-line cs)

take-line : (k : ℕ) (cs : Bytes) → k ≤ length (line cs) → take k cs ≡ take k (line cs)
unfolding line
take-line zero cs h = refl
take-line (suc k) [] h = refl
take-line (suc k) (c ∷ cs) h = elim (Bool-cases (c == b'\n')) [
  | inl newline ↦ absurd (ground arith)
  | inr other ↦ rw other (ap (◌∷◌ c) (take-line k cs (ground arith)))
]

-- The length that the code cuts a line to.
abbrev cut : ℕ → ℕ → ℕ
cut cols n = if ltb cols n then cols else n

take-cut : (cols : ℕ) (cs : Bytes) → take (cut cols (length (line cs))) cs ≡ take cols (line cs)
take-cut cols cs = elim (Bool-cases (ltb cols (length (line cs)))) [
  | inl long ↦ rw long (take-line cols cs (ground arith))
  | inr short ↦ rw short (
      take-line (length (line cs)) cs (omega arith)
      ∙ take-past (length (line cs)) (line cs) (omega arith)
      ∙ sym (take-past cols (line cs) (ground arith)))
]

length-cut : (cols : ℕ) (cs : Bytes) → cut cols (length (line cs)) ≤ length cs
length-cut cols cs = ground (arith, length-line cs)

-- `terminal_write` of the first `n` bytes from an address.
write_bytes :
    (m : Memory) (p n : ℕ) {color : ℕ} {v : View} {s : KernelState}
    → Shows color v s
    → Returns
        (Shows color (View.type_text color (bytes_at m p n) v))
        (terminal_write (bytes_at m p n) n s)
write_bytes m p n {color} {v} {s} h =
    subst₂
      (λ cs k.
        Returns (Shows color (View.type_text color (bytes_at m p n) v)) (terminal_write cs k s))
      (append-nil (bytes_at m p n)) (length-bytes_at m n p) (write_refines (bytes_at m p n) [] h)

show_lines_refines :
    (rows at : ℕ) (e : Editor) (m : Memory) (cs : Bytes) {color : ℕ} {v : View} {s : KernelState}
    → bytes_at m (e.buffer + at) (e.buffer_size - at) ≡ cs
    → Shows color v s
    → Returns
        (Shows color (View.type_text color (shown rows e.screen_cols cs) v))
        (show_lines rows at e m s)
unfolding show_lines shown View.type_text
show_lines_refines zero at e m cs text h = returns h
show_lines_refines (suc rows) at e m [] text h =
    let over : ltb at e.buffer_size ≡ false = ground (
      arith,
      length-bytes_at m (e.buffer_size - at) (e.buffer + at),
      ap (λ (xs : Bytes). length xs) text,
    ) in
    rw over (returns h)
show_lines_refines (suc rows) at e m (c ∷ cs) {color} {v} {s} text h =
    let p : ℕ = e.buffer + at in
    let n : ℕ = e.buffer_size - at in
    let count : n ≡ length (c ∷ cs) =
      sym (length-bytes_at m n p) ∙ ap (λ (xs : Bytes). length xs) text in
    let more : ltb at e.buffer_size ≡ true = ground (arith, count) in
    let size : line_size n p m ≡ length (line (c ∷ cs)) =
      line_size-line n p m ∙ ap (λ xs. length (line xs)) text in
    let k : ℕ = cut e.screen_cols (length (line (c ∷ cs))) in
    let first : bytes_at m p k ≡ take e.screen_cols (line (c ∷ cs)) =
      sym (take-bytes_at m k n p (omega (arith, count, length-cut e.screen_cols (c ∷ cs))))
      ∙ ap (take k) text
      ∙ take-cut e.screen_cols (c ∷ cs) in
    let len : ℕ = length (line (c ∷ cs)) in
    let rest : bytes_at m (e.buffer + (at + len + 1)) (e.buffer_size - (at + len + 1))
        ≡ drop (len + 1) (c ∷ cs) =
      ap₂ (bytes_at m) (omega arith) (omega arith)
      ∙ sym (drop-bytes_at m (len + 1) n p)
      ∙ ap (drop (len + 1)) text in
    let text_of : Bytes → View = λ xs.
      View.type_text color (xs ++ (13 ∷ 10 ∷ shown rows e.screen_cols (drop (len + 1) (c ∷ cs))))
        v in
    rw (more, size)
      (Maybe.bind (write_bytes m p k h) λ s1 h1.
        Maybe.bind (write_string_refines (13 ∷ 10 ∷ []) [] (is_text-IsText (13 ∷ 10 ∷ []) refl) h1)
          λ s2 h2.
            Maybe.mono
              (show_lines_refines rows (at + len + 1) e m (drop (len + 1) (c ∷ cs)) rest h2)
              λ s3 h3.
                subst (λ w. Shows color w s3)
                  (sym (
                      type_text-append color (bytes_at m p k)
                        (13 ∷ 10 ∷ shown rows e.screen_cols (drop (len + 1) (c ∷ cs))) v)
                    ∙ ap text_of first)
                  h3)

write_spaces_refines :
    (n : ℕ) {color : ℕ} {v : View} {s : KernelState}
    → Shows color v s
    → Returns (Shows color (View.type_text color (replicate n b' ') v)) (write_spaces n s)
unfolding write_spaces View.type_text
write_spaces_refines zero h = returns h
write_spaces_refines (suc n) h =
    Maybe.bind (write_char_refines b' ' h) λ s settled. write_spaces_refines n settled.0

show_welcome_refines :
    (e : Editor) {color : ℕ} {v : View} {s : KernelState}
    → e.screen_rows ≡ 24
    → e.screen_cols ≡ 80
    → Shows color v s
    → Returns (Shows color (View.type_text color welcome v)) (show_welcome e s)
unfolding show_welcome View.type_text
show_welcome_refines e {color} {v} {s} rows cols h =
    rw (rows, cols)
      (Maybe.bind (write_char_refines b'~' h) λ s1 settled.
        Maybe.bind (write_spaces_refines 27 settled.0) λ s2 h2.
          write_string_refines (codes "Editor -- version 2.0.0") []
            (is_text-IsText (codes "Editor -- version 2.0.0") refl) h2)

show_status_refines :
    (e : Editor) {color : ℕ} {v : View} {s : KernelState}
    → Shows color v s
    → Returns (Shows color (View.type_text color status v)) (show_status e s)
show_status_refines e {s = s} h = rw (show_status-constant e s) (
    write_string_refines status [] (is_text-IsText status refl)
      (movecursor-Shows 0 e.screen_rows h))

show_text_refines :
    (e : Editor) (m : Memory) (cs : Bytes) {color : ℕ} {v : View} {s : KernelState}
    → e.screen_rows ≡ 24
    → e.screen_cols ≡ 80
    → bytes_at m e.buffer e.buffer_size ≡ cs
    → Shows color v s
    → Returns
        (Shows color
          (View.type_text color (if e.buffer == null then welcome else shown 24 80 cs) v))
        (if e.buffer == null then show_welcome e s else show_lines e.screen_rows 0 e m s)
show_text_refines e m cs {color} {v} {s} rows cols text h = elim (Bool-cases (e.buffer == null)) [
  | inl nowhere ↦ rw nowhere (show_welcome_refines e rows cols h)
  | inr somewhere ↦ rw somewhere (
      subst₂
        (λ r k.
          Returns (Shows color (View.type_text color (shown r k cs) v))
            (show_lines e.screen_rows 0 e m s))
        rows cols
        (show_lines_refines e.screen_rows 0 e m cs
          (ap₂ (bytes_at m) (omega arith) (omega arith) ∙ text) h))
]

-- From a page, with 24 rows and 80 columns, refreshing the screen always ends. The page is then blank
-- but for the text of the buffer, each line cut at the width, or the welcome without a buffer, and the
-- status line behind it. All this is written from where the cursor stood, not from the first cell.
pub refresh_refines :
    (e : Editor) (m : Memory) (cs : Bytes) {color : ℕ} {v : View} {s : KernelState}
    → e.screen_rows ≡ 24
    → e.screen_cols ≡ 80
    → bytes_at m e.buffer e.buffer_size ≡ cs
    → Shows color v s
    → Returns
        (Shows color (View.type_text color (page (e.buffer == null) cs) (blanked color v)))
        (editor_refresh_screen e m s)
unfolding editor_refresh_screen page
refresh_refines e m cs {color} {v} rows cols text h =
    let body : Bytes = if e.buffer == null then welcome else shown 24 80 cs in
    Maybe.bind (clear_refines h) λ s1 h1.
      Maybe.bind (show_text_refines e m cs rows cols text h1) λ s2 h2.
        Maybe.bind (show_status_refines e h2) λ s3 h3. returns (
          subst (λ w. Shows color w (terminal_movecursor e.cursor_x e.cursor_y s3))
            (sym (type_text-append color body status (blanked color v)))
            (movecursor-Shows e.cursor_x e.cursor_y h3))
