-- ===== src/Compiler/Tests.antt =====
-- The compiler at concrete inputs.
use first_os_build.Prelude.{
  ◌+◌, ◌-◌, ◌*◌, ◌≡◌, refl, true, false, none, some, [], ◌∷◌, ◌++◌, Bytes, codes, arith, ◌==◌,
  if◌then◌else◌, get_or, length, inl, Option, Returns, is_text-IsText,
}
use first_os_build.Compiler.{tokenize_line, compile_code, bytes_at}
use first_os_build.Compiler.Assembly
use first_os_build.Compiler.Assembly.{assemble, assemble_all, lines, push}
use first_os_build.Compiler.Binary.{Built, compile_code_refines}
use first_os_build.Compiler.Keeps.{Keeps}
use first_os_build.Compiler.Line.{tokenized, tokenize_line-assemble}
use first_os_build.Memory.{Ptr, Memory, null, heap_start_address, heap_size, header_size}
use first_os_build.Memory.Allocate.{IsHeap}
use first_os_build.Memory.Blocks.{Block}
use first_os_build.Memory.Chain.{end, link}

tokenize_line-assemble_example :
    tokenize_line (codes "  push 300" ++ 0 ∷ 7 ∷ [])
    ≡ some (tokenized (assemble (codes "  push 300")))
tokenize_line-assemble_example =
    tokenize_line-assemble (codes "  push 300") (7 ∷ []) (is_text-IsText (codes "  push 300") refl)

-- An operand is a byte.
push_300 : assemble (codes "  push 300") ≡ some (push 44)
unfolding assemble Assembly.is_comment Assembly.strip Assembly.is_prefix Assembly.value
push_300 = refl

-- Two lines, and no newline behind the last: its last letter is lost, and it is no instruction.
abbrev source : Bytes
source = codes "push 7" ++ 10 ∷ codes "ret"

cut_line : assemble_all (lines [] source) ≡ (false, 1 ∷ 7 ∷ 0 ∷ 0 ∷ 0 ∷ 1 ∷ [])
unfolding assemble_all lines assemble Assembly.is_end Assembly.is_comment Assembly.strip
    Assembly.is_prefix Assembly.value
cut_line = refl

abbrev pub whole_source : Bytes
whole_source = source ++ 10 ∷ []

assembled :
    assemble_all (lines [] whole_source)
    ≡ (true, 1 ∷ 7 ∷ 0 ∷ 0 ∷ 0 ∷ 1 ∷ 7 ∷ 0 ∷ 0 ∷ 0 ∷ 0 ∷ 0 ∷ [])
unfolding assemble_all lines assemble Assembly.is_end Assembly.is_comment Assembly.strip
    Assembly.is_prefix Assembly.value
assembled = refl

abbrev pub block : Block
block = record { address = heap_start_address; size = heap_size - header_size; free = false }

abbrev pub memory : Memory
memory = record {
  heap_start = heap_start_address;
  header = λ p.
      if p == heap_start_address
      then some (record { size = heap_size - header_size; next = null; is_free = false })
      else none;
  byte = λ p. get_or whole_source (p - (heap_start_address + header_size)) 0;
}

pub memory-IsHeap : IsHeap memory (block ∷ []) (heap_start_address + heap_size)
memory-IsHeap = record {
  starts = refl;
  chain = link (omega arith) refl refl end;
  laid = (refl, refl);
}

pub block-Keeps : Keeps block memory (block ∷ []) whole_source
unfolding bytes_at
block-Keeps = record { on = inl refl; used = refl; fits = omega arith; bytes = refl }

compile_code_refines_example :
    Returns
      (λ (result, m').
        Built
          (block ∷ [])
          (heap_start_address + heap_size + 12 * length whole_source + 40)
          block
          whole_source
          (assemble_all (lines [] whole_source)).0
          (assemble_all (lines [] whole_source)).1
          result
          m')
      (compile_code 3 [] (heap_start_address + header_size) (length whole_source) memory)
compile_code_refines_example =
    compile_code_refines 3 [] block (block ∷ []) whole_source memory-IsHeap block-Keeps
      (is_text-IsText whole_source refl) (omega arith) (omega arith) (omega arith)

-- A processor that clears the first byte of memory and returns.
abbrev pub call : Ptr → Memory → Option Memory
call p m = some (record m { byte = λ a. if a == 0 then 0 else m.byte a })
