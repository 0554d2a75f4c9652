-- ===== src/Release/Same.antt =====
-- release/kernel/editor.cpp against kernel/editor.cpp: the text is edited alike.
use mathlib.Core.Option
use mathlib.Core.Option.{Option, some, none}
use first_os_build.Prelude.{
  ℕ, ◌≡◌, refl, true, false, Bool, Bool-cases, inl, inr, arith, ◌==◌, ◌&&◌, ◌||◌, Bytes, ltb, leb,
  ◌%◌, ◌+◌, ◌-◌, ◌>>=◌, ap, fun_ext, ◌∙◌, sym,
}
use first_os_build.Editor
use first_os_build.Keyboard.Layout.{is_typable, Typable}
use first_os_build.Memory.{Ptr, Memory, null, malloc, free}
use first_os_build.Release.Editor.{
  move_text, advance, squeeze, set_byte, editor_insert_char, editor_delete_char,
}
use first_os_build.Release.Editor as Old

-- The editor without what the older one does not have.
abbrev pub forget : Editor.Editor → Old.Editor
forget e = record {
  buffer = e.buffer;
  buffer_size = e.buffer_size;
  cursor_x = e.cursor_x;
  cursor_y = e.cursor_y;
  filename = e.filename;
  screen_rows = e.screen_rows;
  screen_cols = e.screen_cols;
}

abbrev pub forget_both : Editor.Editor × Memory → Old.Editor × Memory
forget_both (e, m) = (forget e, m)

advance-forget : (e : Editor.Editor) → forget (Editor.advance e) ≡ advance (forget e)
unfolding Editor.advance advance
advance-forget e = ground arith

map-bind {ℓ κ μ} :
    {A : Type ℓ} {B : Type κ} {C : Type μ} (m : Option A) (f : A → Option B) (g : B → C)
    → Option.map g (m >>= f) ≡ (m >>= λ a. Option.map g (f a))
map-bind none f g = refl
map-bind (some a) f g = refl

pub insert-forget :
    (fuel c : ℕ) (e : Editor.Editor) (m : Memory)
    → Option.map forget_both (Editor.editor_insert_char fuel c e m)
      ≡ editor_insert_char fuel c (forget e) m
unfolding Editor.editor_insert_char editor_insert_char Editor.move_text move_text
insert-forget fuel c e m =
    map-bind (malloc fuel ((e.buffer_size + 2) % 4294967296) m) _ forget_both
    ∙ ap (◌>>=◌ (malloc fuel ((e.buffer_size + 2) % 4294967296) m)) (
        fun_ext λ (p, m'). elim (Bool-cases (p == null)) [
          | inl full ↦ rw full refl
          | inr some_p ↦ rw some_p (
              map-bind (Editor.move_text fuel p e m') _ forget_both
              ∙ ap (◌>>=◌ (Editor.move_text fuel p e m')) (
                  fun_ext λ m''.
                    ap
                      (λ e'. some (
                        e',
                        set_byte (p + e.buffer_size + 1) 0 (set_byte (p + e.buffer_size) c m''),
                      ))
                      (advance-forget (record e {
                        buffer = p;
                        buffer_size = (e.buffer_size + 2) % 4294967296 - 1;
                      }))))
        ])

pub delete-forget :
    (fuel : ℕ) (e : Editor.Editor) (m : Memory)
    → Option.map forget_both (Editor.editor_delete_char fuel e m)
      ≡ editor_delete_char fuel (forget e) m
unfolding Editor.editor_delete_char editor_delete_char Editor.squeeze squeeze
delete-forget fuel e m = elim (Bool-cases (ltb 0 e.buffer_size && ltb 0 e.cursor_x)) [
  | inl some_x ↦ rw some_x (
      map-bind (malloc fuel e.buffer_size m) _ forget_both
      ∙ ap (◌>>=◌ (malloc fuel e.buffer_size m)) (
          fun_ext λ (p, m'). elim (Bool-cases (p == null)) [
            | inl full ↦ rw full refl
            | inr some_p ↦ rw some_p (
                map-bind (free fuel e.buffer (squeeze p e.buffer e.cursor_x e.buffer_size m')) _
                  forget_both)
          ]))
  | inr first ↦ rw first refl
]

abbrev pub forget_desk : Editor.Desk → Old.Desk
forget_desk d = record {
  editor = forget d.editor;
  memory = d.memory;
  kernel = d.kernel;
  keyboard = d.keyboard;
}

map-map {ℓ κ μ} :
    {A : Type ℓ} {B : Type κ} {C : Type μ} (f : A → B) (g : B → C) (m : Option A)
    → Option.map g (Option.map f m) ≡ Option.map (λ a. g (f a)) m
map-map f g none = refl
map-map f g (some a) = refl

-- A desk from an editor and its memory, in both versions.
both {ℓ} :
    {A : Type ℓ} (m : Option (Editor.Editor × Memory)) (m' : Option (Old.Editor × Memory))
    (f : Editor.Editor × Memory → A) (g : Old.Editor × Memory → A)
    → Option.map forget_both m ≡ m'
    → ((x : Editor.Editor × Memory) → f x ≡ g (forget_both x))
    → (m >>= λ x. some (f x)) ≡ (m' >>= λ x. some (g x))
both none m' f g e same = ap (λ (n : Option (Old.Editor × Memory)). n >>= λ x. some (g x)) e
both (some x) m' f g e same =
    ap some (same x) ∙ ap (λ (n : Option (Old.Editor × Memory)). n >>= λ x. some (g x)) e

module _ (call : Ptr → Memory → Option Memory) (stack : Bytes) (fuel : ℕ) (d : Editor.Desk) where
  abbrev pub forget_run : Bool × Editor.Desk → Bool × Old.Desk
  forget_run (running, d') = (running, forget_desk d')

  enter-forget :
      Option.map forget_desk (Editor.enter_key call stack fuel d)
      ≡ Old.enter_key fuel (forget_desk d)
  unfolding Editor.enter_key Old.enter_key
  enter-forget =
      map-bind (Editor.editor_insert_char fuel b'\n' d.editor d.memory) _ forget_desk
      ∙ both (Editor.editor_insert_char fuel b'\n' d.editor d.memory) _ _ _
          (insert-forget fuel b'\n' d.editor d.memory) (λ x. refl)

  backspace-forget :
      Option.map forget_desk (Editor.backspace_key call stack fuel d)
      ≡ Old.backspace_key fuel (forget_desk d)
  unfolding Editor.backspace_key Old.backspace_key
  backspace-forget =
      map-bind (Editor.editor_delete_char fuel d.editor d.memory) _ forget_desk
      ∙ both (Editor.editor_delete_char fuel d.editor d.memory) _ _ _
          (delete-forget fuel d.editor d.memory) (λ x. refl)

  text-forget :
      (c : ℕ)
      → Option.map forget_desk (Editor.text_key call stack fuel c d)
        ≡ Old.text_key fuel c (forget_desk d)
  unfolding Editor.text_key Old.text_key
  text-forget c = elim (Bool-cases (leb 32 c && ltb c 127)) [
    | inl printable ↦ rw printable (
        map-bind (Editor.editor_insert_char fuel c d.editor d.memory) _ forget_desk
        ∙ both (Editor.editor_insert_char fuel c d.editor d.memory) _ _ _
            (insert-forget fuel c d.editor d.memory) (λ x. refl))
    | inr other ↦ rw other refl
  ]

  -- `on` of `press`
  on-forget :
      (m : Option Editor.Desk) (m' : Option Old.Desk)
      → Option.map forget_desk m ≡ m'
      → Option.map forget_run (Option.map (λ d'. (true, d')) m) ≡ Option.map (λ d'. (true, d')) m'
  on-forget m m' e =
      map-map (λ d'. (true, d')) forget_run m
      ∙ sym (map-map forget_desk (λ d'. (true, d')) m)
      ∙ ap (Option.map (λ d'. (true, d'))) e

  -- The two versions of the editor edit alike: a typable character changes the text, the heap and the
  -- cursor in the same way, whatever the desk, and fails in the same cases.
  pub press-forget :
      (c : ℕ)
      → Typable c
      → Option.map forget_run (Editor.press call stack fuel c d) ≡ Old.press fuel c (forget_desk d)
  unfolding Editor.press Old.press is_typable
  press-forget c typable =
      let quit : (c == 17) ≡ false = ground arith in
      let save : (c == 19) ≡ false = ground arith in
      let run : (c == 18) ≡ false = ground arith in
      elim (Bool-cases (c == b'\r' || c == b'\n')) [
        | inl enter ↦ rw enter (on-forget _ _ enter-forget)
        | inr other ↦ elim (Bool-cases (c == 8)) [
          | inl back ↦ rw (other, back) (on-forget _ _ backspace-forget)
          | inr plain ↦ rw (other, plain, quit, save, run) (on-forget _ _ (text-forget c))
        ]
      ]
