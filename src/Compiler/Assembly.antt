-- ===== src/Compiler/Assembly.antt =====
-- What kernel/compiler.cpp translates: lines of a text, each to an instruction.
use first_os_build.Prelude.{
  ℕ, ◌+◌, ◌-◌, ◌*◌, ◌%◌, Bool, true, false, ◌&&◌, ◌||◌, Option, none, some, List, [], ◌∷◌, ◌++◌,
  Bytes, codes, ◌==◌, if◌then◌else◌, drop, replicate, take,
}
use first_os_build.Compiler.{Instruction, op_nop, op_push, op_ret, is_blank, is_digit, encode}

unfoldable pub strip : Bytes → Bytes
strip [] = []
strip (c ∷ cs) = if is_blank c then strip cs else c ∷ cs

unfoldable pub is_prefix : Bytes → Bytes → Bool
is_prefix [] cs = true
is_prefix (p ∷ ps) [] = false
is_prefix (p ∷ ps) (c ∷ cs) = (c == p) && is_prefix ps cs

-- The decimal number at the start of a text, behind the digits that make `n`.
unfoldable pub value : Bytes → ℕ → ℕ
value [] n = n
value (c ∷ cs) n = if is_digit c then value cs (n * 10 + (c - b'0')) else n

-- Nothing, or a comment.
unfoldable pub is_comment : Bytes → Bool
is_comment [] = true
is_comment (c ∷ cs) = c == b'#' || c == b';'

abbrev pub plain : ℕ → Instruction
plain opcode = record { opcode = opcode; operands = replicate 4 0; operand_count = 0 }

-- One operand, a byte.
abbrev pub push : ℕ → Instruction
push n = record { opcode = op_push; operands = n % 256 ∷ replicate 3 0; operand_count = 1 }

-- The instruction of a line. What follows a word is not looked at, and a word need not end.
unfoldable pub assemble : Bytes → Option Instruction
assemble line =
    let cs = strip line in
    if is_comment cs || is_prefix (codes "nop") cs
    then some (plain op_nop)
    else if is_prefix (codes "push") cs
    then some (push (value (strip (drop 4 cs)) 0))
    else if is_prefix (codes "ret") cs
    then some (plain op_ret)
    else none

unfoldable pub is_end : Bytes → Bool
is_end [] = true
is_end (c ∷ cs) = false

-- The lines of a source, behind the start of a line: each newline ends a line, and so does the last
-- byte, whatever it is.
unfoldable pub lines : Bytes → Bytes → List Bytes
lines line [] = []
lines line (c ∷ cs) = elim (c == b'\n' || is_end cs) [
  | true ↦ line ∷ lines [] cs
  | false ↦ lines (line ++ c ∷ []) cs
]

-- The code of the lines, up to the first that is no instruction, and whether there is none. Of a line
-- the first 255 bytes count.
unfoldable pub assemble_all : List Bytes → Bool × Bytes
assemble_all [] = (true, [])
assemble_all (line ∷ more) =
    let (ok, code) = assemble_all more in
    elim (assemble (take 255 line)) [ none ↦ (false, []) | some i ↦ (ok, encode i ++ code) ]
