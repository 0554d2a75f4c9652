-- ===== src/Compiler.antt =====
-- kernel/compiler.cpp: lines of assembly to records of six bytes. `none` is a read past an object, or
-- a failure of the allocator's model.
pub mod Assembly
pub mod Binary
pub mod BytesAt
pub mod Keeps
pub mod Line
pub mod Lines
pub mod Run
pub mod Sources
pub mod Stored
pub mod Tests
use mathlib.Core.Option
use first_os_build.Prelude.{
  ℕ, zero, suc, ◌+◌, ◌-◌, ◌*◌, ◌%◌, ◌^◌, Bool, true, false, ◌&&◌, ◌||◌, Option, none, some, [], ◌∷◌,
  ◌++◌, Bytes, codes, ltb, leb, ◌==◌, if◌then◌else◌, ◌>>=◌, is_zero, drop, replicate, get_elem?,
}
use first_os_build.CString.{memcmp, copy_bytes}
use first_os_build.Memory.{Ptr, Memory, null, memory_allocate, memory_free, memcpy}

pub record Instruction : Type 0 where
  pub opcode : ℕ
  pub operands : Bytes
  pub operand_count : ℕ

abbrev pub op_nop : ℕ
op_nop = 0

abbrev pub op_push : ℕ
op_push = 1

abbrev pub op_ret : ℕ
op_ret = 7

-- `sizeof(Instruction)`
abbrev pub instruction_size : ℕ
instruction_size = 6

abbrev pub is_blank : ℕ → Bool
is_blank c = c == b' ' || c == b'\t'

abbrev pub is_digit : ℕ → Bool
is_digit c = leb b'0' c && leb c b'9'

-- `while (*line == ' ' || *line == '\t') line++;`
unfoldable pub skip_blanks : Bytes → Option Bytes
skip_blanks [] = none
skip_blanks (c ∷ line) = let rest = skip_blanks line in if is_blank c then rest else some (c ∷ line)

-- The loop over the digits of an operand, which is a `uint8_t`.
unfoldable pub read_operand : Bytes → ℕ → Option ℕ
read_operand [] n = none
read_operand (c ∷ line) n =
    let rest = read_operand line ((n * 10 + (c - b'0')) % 256) in
    if is_digit c then rest else some n

abbrev pub blank_instruction : Instruction
blank_instruction = record { opcode = op_nop; operands = replicate 4 0; operand_count = 0 }

-- `memcmp(line, word, n) == 0`
unfoldable pub starts_with : Bytes → Bytes → ℕ → Option Bool
starts_with line word n = Option.map is_zero (memcmp line word n)

unfoldable pub push_line : Bytes → Option Instruction
push_line line = do
  line ← skip_blanks (drop 4 line)
  n ← read_operand line 0
  some (record blank_instruction {
    opcode = op_push;
    operands = n ∷ replicate 3 0;
    operand_count = 1;
  })

-- "Compare instruction types"
unfoldable pub instruction_line : Bytes → Option (Bool × Instruction)
instruction_line line = do
  nop ← starts_with line (codes "nop" ++ 0 ∷ []) 3
  if nop then some (true, blank_instruction) else do
    push ← starts_with line (codes "push" ++ 0 ∷ []) 4
    if push then (push_line line >>= λ i. some (true, i)) else do
      ret ← starts_with line (codes "ret" ++ 0 ∷ []) 3
      some (
          if ret
          then (true, record blank_instruction { opcode = op_ret })
          else (false, blank_instruction))

-- The result and `*instr`.
unfoldable pub tokenize_line : Bytes → Option (Bool × Instruction)
tokenize_line [] = none
tokenize_line (c ∷ line) = do
  rest ← skip_blanks (c ∷ line)
  first ← get_elem? rest 0
  if first == 0 || (first == b'#' || first == b';')
      then some (true, blank_instruction)
      else instruction_line rest

pub record CompileResult : Type 0 where
  pub success : Bool
  pub error_message : Bytes
  pub binary : Ptr
  pub binary_size : ℕ

-- `memset(result.error_message, 0, 256)` and then the first `n` bytes of a literal
unfoldable pub message : Bytes → ℕ → Option Bytes
message literal n = copy_bytes (replicate 256 0) (literal ++ 0 ∷ []) n

-- The `n` bytes from an address on.
unfoldable pub bytes_at : Memory → Ptr → ℕ → Bytes
bytes_at m p zero = []
bytes_at m p (suc n) = m.byte p ∷ bytes_at m (p + 1) n

unfoldable pub store_bytes : Ptr → Bytes → Memory → Memory
store_bytes p [] m = m
store_bytes p (c ∷ cs) m =
    store_bytes (p + 1) cs (record m { byte = λ a. if a == p then c else m.byte a })

abbrev pub encode : Instruction → Bytes
encode i = i.opcode ∷ i.operands ++ i.operand_count ∷ []

-- The loop over the source, from `current`, `remaining` bytes before its end. `stack` is what stands in
-- `line_buffer` before. The result says whether every line was an instruction, and counts them.
unfoldable pub compile_loop : Bytes → Ptr → ℕ → Ptr → Ptr → ℕ → Memory → Option (Bool × ℕ × Memory)
compile_loop stack instructions zero current line_start count m = some (true, count, m)
compile_loop stack instructions (suc remaining) current line_start count m =
    let on = compile_loop stack instructions remaining (current + 1) line_start count m in
    let length = current - line_start in
    let line_length = if ltb 255 length then 255 else length in
    let line_buffer = bytes_at m line_start line_length ++ 0 ∷ drop (line_length + 1) stack in
    let line_end = (do
      (ok, instr) ← tokenize_line line_buffer
      let m' = store_bytes (instructions + count * instruction_size) (encode instr) m
      let next =
          compile_loop stack instructions remaining (current + 1) (current + 1) (count + 1) m'
      if ok then next else some (false, count, m')) in
    if m.byte current == b'\n' || remaining == 0 then line_end else on

-- "Allocate space for final binary" and on
unfoldable pub emit_binary : ℕ → Ptr → ℕ → Memory → Option (CompileResult × Memory)
emit_binary fuel instructions count m = do
  let size = count * instruction_size % 2 ^ 32
  (binary, m) ← memory_allocate fuel size m
  if binary == null
      then (do
        error ← message (codes "Failed to allocate memory for final binary") 40
        m ← memory_free fuel instructions m
        some (
          record { success = false; error_message = error; binary = null; binary_size = size },
          m,
        ))
      else (do
        m ← memory_free fuel instructions (memcpy binary instructions size m)
        done ← message (codes "Compilation successful") 21
        some (
          record { success = true; error_message = done; binary = binary; binary_size = size },
          m,
        ))

unfoldable pub compile_code : ℕ → Bytes → Ptr → ℕ → Memory → Option (CompileResult × Memory)
compile_code fuel stack source length m = do
  (instructions, m) ← memory_allocate fuel (instruction_size * length % 2 ^ 32) m
  if instructions == null
      then (do
        error ← message (codes "Failed to allocate memory for compilation") 40
        some (record { success = false; error_message = error; binary = null; binary_size = 0 }, m))
      else (do
        (ok, count, m) ← compile_loop stack instructions length source source 0 m
        if ok then emit_binary fuel instructions count m else do
          error ← message (codes "Invalid instruction") 18
          m ← memory_free fuel instructions m
          some (
            record { success = false; error_message = error; binary = null; binary_size = 0 },
            m,
          ))

-- `call` is what the processor does from an address on, until it returns.
unfoldable pub execute_binary :
    (Ptr → Memory → Option Memory) → ℕ → Ptr → ℕ → Memory → Option (Bool × Memory)
execute_binary call fuel binary size m = if binary == null || size == 0 then some (false, m) else do
  (exec_mem, m) ← memory_allocate fuel size m
  if exec_mem == null then some (false, m) else do
    m ← call exec_mem (memcpy exec_mem binary size m)
    m ← memory_free fuel exec_mem m
    some (true, m)
