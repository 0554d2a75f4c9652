-- ===== src/Compiler/Lines.antt =====
-- kernel/compiler.cpp: the loop of `compile_code` against the lines of Compiler/Assembly.antt.
use first_os_build.Prelude.{
  ℕ, zero, suc, ◌+◌, ◌-◌, ◌*◌, ◌≤◌, ◌<◌, ◌≡◌, ◌⊎◌, refl, Bool, true, false, ◌||◌, [], ◌∷◌, ◌++◌,
  Bytes, arith, ◌==◌, ltb, if◌then◌else◌, drop, take, length, inl, inr, Bool-cases, Option-cases,
  ap, ap₂, ◌∙◌, sym, get_or, Returns, returns, length-append, take-past, All-append,
}
use first_os_build.Prelude.Maybe
use first_os_build.CString.Compare.{IsText}
use first_os_build.Compiler.{bytes_at, store_bytes, encode, compile_loop, blank_instruction}
use first_os_build.Compiler.Assembly.{assemble, is_end, lines, assemble_all}
use first_os_build.Compiler.BytesAt.{bytes_at_ext, bytes_at-add, length-bytes_at, take-bytes_at}
use first_os_build.Compiler.Stored.{stored, store_bytes-stored, stored-outside, bytes_at-stored}
use first_os_build.Compiler.Line.{tokenized, tokenize_line-assemble}
use first_os_build.Memory.{Ptr, Memory}
use first_os_build.Memory.Realloc.{with_bytes}
use first_os_build.Compiler.Sources.{
  length-encode, lines-nil, lines-end, lines-on, assemble_all-none, assemble_all-some,
}

All-take : (n : ℕ) (cs : Bytes) → IsText cs → IsText (take n cs)
All-take zero cs t = tt
All-take (suc n) [] t = tt
All-take (suc n) (c ∷ cs) (ne, t) = (ne, All-take n cs t)

-- What the loop leaves, from the memory `m` on, in the room for `remaining` instructions at `p`.
pub record Compiled (p count remaining : ℕ) (m : Memory) (valid : Bool) (code : Bytes)
    (r : Bool × ℕ × Memory) : Type 0 where
  pub ok : r.0 ≡ valid
  pub fits : r.1 ≤ count + remaining
  pub counted : valid ≡ true → r.1 * 6 ≡ count * 6 + length code
  pub written : valid ≡ true → bytes_at r.2 (p + count * 6) (length code) ≡ code
  pub byte : Ptr → ℕ
  pub bytes : r.2 ≡ with_bytes m byte
  pub outside :
      (a : Ptr) → (a < p + count * 6) ⊎ (p + (count + remaining) * 6 ≤ a) → byte a ≡ m.byte a

-- One line more before what the rest of the loop leaves.
line_before :
    (p count remaining : ℕ) (m : Memory) (valid : Bool) (code instr : Bytes) (r : Bool × ℕ × Memory)
    → length instr ≡ 6
    → Compiled p
        (count + 1)
        remaining
        (with_bytes m (stored m.byte (p + count * 6) instr))
        valid
        code
        r
    → Compiled p count (suc remaining) m valid (instr ++ code) r
line_before p count remaining m valid code instr r six c = record {
  ok = c.ok;
  fits = omega (arith, c.fits);
  counted = λ v. omega (arith, c.counted v, length-append instr code, six);
  written = λ v.
      let q : ℕ = p + count * 6 in
      ap (bytes_at r.2 q) (length-append instr code)
      ∙ bytes_at-add r.2 (length instr) (length code) q
      ∙ ap₂ (λ (a b : Bytes). a ++ b)
          (bytes_at_ext (with_bytes m (stored m.byte q instr)) r.2 (length instr) q q (λ i lt.
              ap (λ (m' : Memory). m'.byte (q + i)) c.bytes
              ∙ c.outside (q + i) (omega (arith, six)))
            ∙ bytes_at-stored q instr m m.byte)
          (ap (λ a. bytes_at r.2 a (length code)) (omega (arith, six)) ∙ c.written v);
  byte = c.byte;
  bytes = c.bytes;
  outside = λ a out. c.outside a (omega arith) ∙ ground (arith, six);
}

is_end-bytes_at : (m : Memory) (p n : ℕ) → is_end (bytes_at m p n) ≡ (n == 0)
unfolding is_end bytes_at
is_end-bytes_at m p zero = refl
is_end-bytes_at m p (suc n) = ground arith

-- The line buffer: the first 255 bytes of the line and a zero byte.
line_buffer :
    (m : Memory) (line_start n : ℕ) (line : Bytes)
    → bytes_at m line_start n ≡ line
    → bytes_at m line_start (if ltb 255 n then 255 else n) ≡ take 255 line
line_buffer m line_start n line text = elim (Bool-cases (ltb 255 n)) [
  | inl long ↦ rw long (sym (take-bytes_at m 255 n line_start (ground arith)) ∙ ap (take 255) text)
  | inr short ↦ rw short (
      text
      ∙ sym (
          take-past 255 line
            (ground (arith, length-bytes_at m n line_start, ap (λ (xs : Bytes). length xs) text))))
]

nothing_left : (p count : ℕ) (m : Memory) → Compiled p count 0 m true [] (true, count, m)
unfolding bytes_at
nothing_left p count m = record {
  ok = refl;
  fits = omega arith;
  counted = λ v. omega arith;
  written = λ v. refl;
  byte = m.byte;
  bytes = refl;
  outside = λ a out. refl;
}

-- A line that is no instruction ends the loop, once its blank instruction is stored.
refused :
    (p count remaining : ℕ) (m : Memory)
    → Compiled p count
        (suc remaining)
        m
        false
        []
        (false, count, store_bytes (p + count * 6) (encode blank_instruction) m)
refused p count remaining m = record {
  ok = refl;
  fits = omega arith;
  counted = λ v. absurd (ground arith);
  written = λ v. absurd (ground arith);
  byte = stored m.byte (p + count * 6) (encode blank_instruction);
  bytes = store_bytes-stored (p + count * 6) (encode blank_instruction) m;
  outside = λ a out. ground arith;
}

one_less :
    (p count remaining : ℕ) (m : Memory) (valid : Bool) (code : Bytes) (r : Bool × ℕ × Memory)
    → Compiled p count remaining m valid code r
    → Compiled p count (suc remaining) m valid code r
one_less p count remaining m valid code r c = record {
  ok = c.ok;
  fits = omega (arith, c.fits);
  counted = c.counted;
  written = c.written;
  byte = c.byte;
  bytes = c.bytes;
  outside = λ a out. c.outside a (omega arith);
}

pub compile_loop_refines :
    (stack : Bytes) (p remaining current line_start count : ℕ) (m : Memory) (line cs : Bytes)
    → bytes_at m line_start (length line) ≡ line
    → bytes_at m current remaining ≡ cs
    → current ≡ line_start + length line
    → IsText line
    → IsText cs
    → (p + (count + remaining) * 6 ≤ line_start) ⊎ (current + remaining ≤ p + count * 6)
    → let (valid, code) = assemble_all (lines line cs) in
      Returns
        (Compiled p count remaining m valid code)
        (compile_loop stack p remaining current line_start count m)
unfolding compile_loop bytes_at
compile_loop_refines stack p zero current line_start count m line [] before after at tl tc apart =
    rw (lines-nil line) (returns (nothing_left p count m))
compile_loop_refines stack p zero current line_start count m line (c ∷ cs) before after at tl tc
      apart =
    absurd (omega (arith, length-bytes_at m 0 current, ap (λ (xs : Bytes). length xs) after))
compile_loop_refines stack p (suc remaining) current line_start count m line [] before after at tl
      tc apart =
    absurd (
      omega
        (arith, length-bytes_at m (suc remaining) current, ap (λ (xs : Bytes). length xs) after))
compile_loop_refines stack p (suc remaining) current line_start count m line (c ∷ cs) before after
      at tl (ne, tc) apart =
    let first : m.byte current ≡ c = ap (λ (xs : Bytes). get_or xs 0 0) after in
    let rest : bytes_at m (current + 1) remaining ≡ cs = ap (λ (xs : Bytes). drop 1 xs) after in
    let last : (remaining == 0) ≡ is_end cs =
      sym (is_end-bytes_at m (current + 1) remaining) ∙ ap is_end rest in
    rw (first, last)
      (elim (Bool-cases (c == b'\n' || is_end cs)) [
        | inl ends ↦
            rw (ends, lines-end line cs c ends)
              (let n : current - line_start ≡ length line = omega arith in
                let buffer =
                  line_buffer m line_start (current - line_start) line
                    (ap (bytes_at m line_start) n ∙ before) in
                rw (buffer, tokenize_line-assemble (take 255 line) _ (All-take 255 line tl))
                  (elim (Option-cases (assemble (take 255 line))) [
                    | inl unknown ↦
                        rw (unknown, assemble_all-none line (lines [] cs) unknown)
                          (returns (refused p count remaining m))
                    | inr (i, known) ↦
                        let six : length (encode i) ≡ 6 =
                          ap (λ o. length (encode (tokenized o).1)) (sym known)
                          ∙ length-encode (take 255 line) in
                        rw
                          (
                            known,
                            assemble_all-some line (lines [] cs) i known,
                            store_bytes-stored (p + count * 6) (encode i) m,
                          )
                          (Maybe.mono
                            (compile_loop_refines stack p remaining (current + 1) (current + 1)
                              (count + 1) (with_bytes m (stored m.byte (p + count * 6) (encode i)))
                              [] cs refl
                              (bytes_at_ext m
                                  (with_bytes m (stored m.byte (p + count * 6) (encode i)))
                                  remaining (current + 1) (current + 1)
                                  (λ j lt.
                                    stored-outside m.byte (p + count * 6) (encode i)
                                      (current + 1 + j) (omega (arith, six)))
                                ∙ rest)
                              (omega arith) tt tc (omega arith))
                            λ r c. line_before p count remaining m _ _ (encode i) r six c)
                  ]))
        | inr goes_on ↦
            rw (goes_on, lines-on line cs c goes_on)
              (let longer = length-append line (c ∷ []) in
                Maybe.mono
                  (compile_loop_refines stack p remaining (current + 1) line_start count m
                    (line ++ c ∷ []) cs
                    (ap (bytes_at m line_start) longer
                      ∙ bytes_at-add m (length line) 1 line_start
                      ∙ ap₂ (λ (a : Bytes) (x : ℕ). a ++ x ∷ []) before
                          (ap m.byte (sym at) ∙ first))
                    rest (omega (arith, longer)) (All-append _ line (c ∷ []) tl (ne, tt)) tc
                    (omega arith))
                  λ r c. one_less p count remaining m _ _ r c)
      ])
