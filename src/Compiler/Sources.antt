-- ===== src/Compiler/Sources.antt =====
-- kernel/compiler.cpp: the lines of a source and their instructions, after Compiler/Assembly.antt.
use first_os_build.Prelude.{
  ℕ, ◌*◌, ◌<◌, ◌≡◌, refl, Bool, true, false, ◌||◌, none, some, List, [], ◌∷◌, ◌++◌, Bytes, arith,
  ◌==◌, take, length, inl, inr, Bool-cases, Option-cases, ap, ◌∙◌, sym, length-append,
}
use first_os_build.Compiler.{Instruction, encode}
use first_os_build.Compiler.Assembly.{assemble, is_end, lines, assemble_all}
use first_os_build.Compiler.Line.{tokenized}

pub length-encode : (line : Bytes) → length (encode (tokenized (assemble line)).1) ≡ 6
unfolding assemble
length-encode line = ground arith

pub lines-nil : (line : Bytes) → assemble_all (lines line []) ≡ (true, [])
unfolding lines assemble_all
lines-nil line = refl

pub lines-end :
    (line cs : Bytes) (c : ℕ)
    → (c == b'\n' || is_end cs) ≡ true
    → lines line (c ∷ cs) ≡ line ∷ lines [] cs
unfolding lines
lines-end line cs c h = rw (lines, h) refl

pub lines-on :
    (line cs : Bytes) (c : ℕ)
    → (c == b'\n' || is_end cs) ≡ false
    → lines line (c ∷ cs) ≡ lines (line ++ c ∷ []) cs
unfolding lines
lines-on line cs c h = rw (lines, h) refl

pub assemble_all-none :
    (line : Bytes) (more : List Bytes)
    → assemble (take 255 line) ≡ none
    → assemble_all (line ∷ more) ≡ (false, [])
unfolding assemble_all
assemble_all-none line more h = rw (assemble_all, h) refl

pub assemble_all-some :
    (line : Bytes) (more : List Bytes) (i : Instruction)
    → assemble (take 255 line) ≡ some i
    → assemble_all (line ∷ more) ≡ ((assemble_all more).0, encode i ++ (assemble_all more).1)
unfolding assemble_all
assemble_all-some line more i h = rw (assemble_all, h) refl

-- Each line of a valid source gives six bytes.
pub length-assemble_all :
    (ls : List Bytes) → (assemble_all ls).0 ≡ true → length (assemble_all ls).1 ≡ length ls * 6
unfolding assemble_all
length-assemble_all [] v = refl
length-assemble_all (line ∷ ls) v = elim (Option-cases (assemble (take 255 line))) [
  | inl unknown ↦
      absurd (ground (arith, ap (λ (p : Bool × Bytes). p.0) (assemble_all-none line ls unknown)))
  | inr (i, known) ↦
      let all = assemble_all-some line ls i known in
      let six : length (encode i) ≡ 6 =
        ap (λ o. length (encode (tokenized o).1)) (sym known) ∙ length-encode (take 255 line) in
      rw all (
        omega (
          arith,
          six,
          length-append (encode i) (assemble_all ls).1,
          length-assemble_all ls (sym (ap (λ (p : Bool × Bytes). p.0) all) ∙ v),
        ))
]

not_end : (cs : Bytes) → is_end cs ≡ false → 0 < length cs
unfolding is_end
not_end [] h = absurd (ground arith)
not_end (c ∷ cs) h = omega arith

-- A source that is not empty has a line.
pub lines-some : (line cs : Bytes) → 0 < length cs → 0 < length (lines line cs)
lines-some line [] h = absurd (omega arith)
lines-some line (c ∷ cs) h = elim (Bool-cases (c == b'\n' || is_end cs)) [
  | inl ends ↦ rw (lines-end line cs c ends) (omega arith)
  | inr goes_on ↦
      rw (lines-on line cs c goes_on) (lines-some (line ++ c ∷ []) cs (not_end cs (ground arith)))
]
