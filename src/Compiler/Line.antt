-- ===== src/Compiler/Line.antt =====
-- kernel/compiler.cpp: `tokenize_line` against Compiler/Assembly.antt.
use first_os_build.Prelude.{
  ℕ, ◌+◌, ◌-◌, ◌*◌, ◌%◌, ◌≡◌, ◌≢◌, refl, Bool, true, false, ◌||◌, Option, none, some, [], ◌∷◌, ◌++◌,
  Bytes, codes, arith, ◌==◌, if◌then◌else◌, ◌>>=◌, drop, length, inl, inr, Bool-cases, is_text,
  is_text-IsText, ap, ◌∙◌, get_elem?,
}
use first_os_build.CString.{memcmp}
use first_os_build.CString.Compare.{IsText, is_zero-sub_ne}
use first_os_build.Compiler.{
  Instruction, is_digit, skip_blanks, read_operand, starts_with, push_line, instruction_line,
  tokenize_line, op_nop, op_ret, blank_instruction,
}
use first_os_build.Compiler.Assembly.{strip, is_prefix, value, is_comment, plain, push, assemble}

skip_blanks-strip : (cs rest : Bytes) → skip_blanks (cs ++ 0 ∷ rest) ≡ some (strip cs ++ 0 ∷ rest)
unfolding skip_blanks strip
skip_blanks-strip [] rest = refl
skip_blanks-strip (c ∷ cs) rest = ground (arith, skip_blanks-strip cs rest)

strip-IsText : (cs : Bytes) → IsText cs → IsText (strip cs)
unfolding strip
strip-IsText [] t = tt
strip-IsText (c ∷ cs) (ne, t) = ground (arith, strip-IsText cs t)

-- The value does not depend on the digits that a byte drops.
value-byte : (cs : Bytes) (n k : ℕ) → n % 256 ≡ k % 256 → value cs n % 256 ≡ value cs k % 256
unfolding value
value-byte [] n k e = e
value-byte (c ∷ cs) n k e = elim (Bool-cases (is_digit c)) [
  | inl digit ↦ rw digit (value-byte cs (n * 10 + (c - b'0')) (k * 10 + (c - b'0')) (omega arith))
  | inr other ↦ rw other e
]

read_operand-value :
    (cs rest : Bytes) (n : ℕ)
    → n ≡ n % 256
    → read_operand (cs ++ 0 ∷ rest) n ≡ some (value cs n % 256)
unfolding read_operand value
read_operand-value [] rest n e = ap some e
read_operand-value (c ∷ cs) rest n e = elim (Bool-cases (is_digit c)) [
  | inl digit ↦ rw digit (
      read_operand-value cs rest ((n * 10 + (c - b'0')) % 256) (omega arith)
      ∙ ap some (value-byte cs ((n * 10 + (c - b'0')) % 256) (n * 10 + (c - b'0')) (omega arith)))
  | inr other ↦ rw other (ap some e)
]

starts_with-is_prefix :
    (ps cs rest more : Bytes)
    → IsText ps
    → IsText cs
    → starts_with (cs ++ 0 ∷ rest) (ps ++ more) (length ps) ≡ some (is_prefix ps cs)
unfolding starts_with is_prefix memcmp
starts_with-is_prefix [] cs rest more tp tc = refl
starts_with-is_prefix (p ∷ ps) [] rest more (ne, tp) tc = ground (arith, is_zero-sub_ne 0 p)
starts_with-is_prefix (p ∷ ps) (c ∷ cs) rest more (np, tp) (nc, tc) = elim (Bool-cases (c == p)) [
  | inl same ↦ rw same (starts_with-is_prefix ps cs rest more tp tc)
  | inr differ ↦ rw differ (ap some (is_zero-sub_ne c p (ground arith)))
]

drop-is_prefix :
    (ps cs more : Bytes)
    → is_prefix ps cs ≡ true
    → drop (length ps) (cs ++ more) ≡ drop (length ps) cs ++ more
unfolding is_prefix
drop-is_prefix [] cs more h = refl
drop-is_prefix (p ∷ ps) [] more h = absurd (ground arith)
drop-is_prefix (p ∷ ps) (c ∷ cs) more h = drop-is_prefix ps cs more (ground arith)

push_line-value :
    (cs rest : Bytes)
    → is_prefix (codes "push") cs ≡ true
    → push_line (cs ++ 0 ∷ rest) ≡ some (push (value (strip (drop 4 cs)) 0))
unfolding push_line
push_line-value cs rest h = rw (
  drop-is_prefix (codes "push") cs (0 ∷ rest) h,
  skip_blanks-strip (drop 4 cs) rest,
  read_operand-value (strip (drop 4 cs)) rest 0 (omega arith),
)

nonzero : (c : ℕ) → (c == 0) ≡ false → c ≢ 0
nonzero c h = ground arith

instruction_line-assemble :
    (cs rest : Bytes)
    → IsText cs
    → instruction_line (cs ++ 0 ∷ rest)
      ≡ some (
          if is_prefix (codes "nop") cs
          then (true, plain op_nop)
          else if is_prefix (codes "push") cs
          then (true, push (value (strip (drop 4 cs)) 0))
          else if is_prefix (codes "ret") cs
          then (true, plain op_ret)
          else (false, plain op_nop))
unfolding instruction_line
instruction_line-assemble cs rest t =
    let word : (ps : Bytes)
        → is_text ps ≡ true
        → starts_with (cs ++ 0 ∷ rest) (ps ++ 0 ∷ []) (length ps) ≡ some (is_prefix ps cs) =
      λ ps h. starts_with-is_prefix ps cs rest (0 ∷ []) (is_text-IsText ps h) t in
    rw (word (codes "nop") refl) (elim (Bool-cases (is_prefix (codes "nop") cs)) [
      | inl nop ↦ rw nop refl
      | inr other ↦
          rw (other, word (codes "push") refl)
            (elim (Bool-cases (is_prefix (codes "push") cs)) [
              | inl pushed ↦ rw (pushed, push_line-value cs rest pushed) refl
              | inr last ↦
                  rw (last, word (codes "ret") refl)
                    (elim (Bool-cases (is_prefix (codes "ret") cs)) [
                      | inl ret ↦ rw ret refl
                      | inr unknown ↦ rw unknown refl
                    ])
            ])
    ])

-- The result of `tokenize_line` for the instruction of a line or none: blank where there is none.
abbrev pub tokenized : Option Instruction → Bool × Instruction
tokenized none = (false, plain op_nop)
tokenized (some i) = (true, i)

-- The chain of tests gives the same with the result inside and outside.
tested :
    (comment nop pushed ret : Bool) (i : Instruction)
    → (if comment
        then some (true, plain op_nop)
        else some (
            if nop
            then (true, plain op_nop)
            else if pushed
            then (true, i)
            else if ret
            then (true, plain op_ret)
            else (false, plain op_nop)))
      ≡ some (
          tokenized (
            if comment || nop
            then some (plain op_nop)
            else if pushed
            then some i
            else if ret
            then some (plain op_ret)
            else none))
tested true nop pushed ret i = refl
tested false true pushed ret i = refl
tested false false true ret i = refl
tested false false false true i = refl
tested false false false false i = refl

-- The same behind the blanks.
after_blanks :
    (cs rest : Bytes)
    → IsText cs
    → (get_elem? (cs ++ 0 ∷ rest) 0 >>= λ first.
        if first == 0 || (first == b'#' || first == b';')
        then some (true, blank_instruction)
        else instruction_line (cs ++ 0 ∷ rest))
      ≡ some (
          tokenized (
            if is_comment cs || is_prefix (codes "nop") cs
            then some (plain op_nop)
            else if is_prefix (codes "push") cs
            then some (push (value (strip (drop 4 cs)) 0))
            else if is_prefix (codes "ret") cs
            then some (plain op_ret)
            else none))
unfolding is_comment
after_blanks [] rest t = refl
after_blanks (c ∷ cs) rest (ne, t) =
    let more : (c == 0) ≡ false = ground arith in
    rw (instruction_line-assemble (c ∷ cs) rest (ne, t), more)
      (tested (c == b'#' || c == b';') (is_prefix (codes "nop") (c ∷ cs))
        (is_prefix (codes "push") (c ∷ cs)) (is_prefix (codes "ret") (c ∷ cs))
        (push (value (strip (drop 3 cs)) 0)))

-- `tokenize_line` on a text with no zero byte, in a buffer that goes on with a zero byte: it always
-- ends, with the instruction of the line or the news that there is none.
pub tokenize_line-assemble :
    (cs rest : Bytes) → IsText cs → tokenize_line (cs ++ 0 ∷ rest) ≡ some (tokenized (assemble cs))
unfolding tokenize_line assemble skip_blanks is_comment strip
tokenize_line-assemble [] rest t = refl
tokenize_line-assemble (c ∷ cs) rest t =
    rw (skip_blanks-strip (c ∷ cs) rest)
      (after_blanks (strip (c ∷ cs)) rest (strip-IsText (c ∷ cs) t))
