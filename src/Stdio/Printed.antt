-- ===== src/Stdio/Printed.antt =====
-- kernel/stdio.cpp: the directive %d against `itoa`.
use first_os_build.Prelude.{
  ℕ, zero, suc, ◌+◌, ◌-◌, ◌/◌, ◌^◌, ◌≤◌, ◌<◌, ◌≡◌, ◌≢◌, refl, true, false, some, [], ◌∷◌, ◌++◌,
  Bytes, codes, ltb, ◌==◌, length, length-append, arith, Returns, returns, Bool-cases, inl, inr, ℤ,
  pos, negsuc, ap, ap₂, sym, ◌∙◌, append_assoc, append-nil, lt→ltb,
}
use first_os_build.Stdio.{
  emit, emit_num, emit_int, itoa_loop, itoa, finish, digit_char, num_digits, rev_append, magnitude,
  is_negative, snprintf, int,
}
use first_os_build.Stdio.Reverse.{turned}
use first_os_build.Stdio.Decimal.{
  low_digits, digits, signed_digits, IsInt, pow_step, low_digits-zero, length-digits,
  length-signed_digits,
}
use first_os_build.Stdio.Itoa.{emit-room, itoa-digits}

-- `num` of `vsnprintf` holds the same digits.
num_digits-low_digits :
    (k room n : ℕ) → n ≢ 0 → n < 10 ^ k → k ≤ room → num_digits room n ≡ low_digits k n
unfolding num_digits low_digits
num_digits-low_digits zero room n ne small le = absurd (ne (omega arith))
num_digits-low_digits (suc k) zero n ne small le = absurd (omega arith)
num_digits-low_digits (suc k) (suc room) n ne small le =
    let some_n : (n == 0) ≡ false = ground arith in
    rw some_n (
      ap₂ ◌∷◌ (omega arith) (elim (Bool-cases (n / 10 == 0)) [
        | inl last ↦ rw last (sym (low_digits-zero k (n / 10) (ground arith)))
        | inr more ↦ rw more (
            num_digits-low_digits k room (n / 10) (ground arith) (omega (arith, pow_step k))
              (omega arith))
      ]))

emit_num-all :
    (cap size : ℕ) (num out : Bytes)
    → length out + length num < size
    → size ≤ cap
    → emit_num cap size out num ≡ some (out ++ num)
unfolding emit_num
emit_num-all cap size [] out fits room = ap some (sym (append-nil out))
emit_num-all cap size (c ∷ num) out fits room =
    let more : ltb (length out) (size - 1) ≡ true = ground arith in
    rw (more, emit-room cap c out (omega arith))
      (emit_num-all cap size num (out ++ c ∷ []) (omega (arith, length-append out (c ∷ []))) room
        ∙ ap some (append_assoc out (c ∷ []) num))

num_digits-zero : turned (num_digits 31 0) ≡ b'0' ∷ []
unfolding num_digits rev_append
num_digits-zero = refl

num_digits-digits : (n : ℕ) → n < 10 ^ 10 → turned (num_digits 31 n) ≡ digits n
num_digits-digits n small = elim (Bool-cases (n == 0)) [
  | inl none_left ↦
      rw none_left (ap (λ k. turned (num_digits 31 k)) (ground arith) ∙ num_digits-zero)
  | inr more ↦
      rw more (ap turned (num_digits-low_digits 10 31 n (ground arith) small (omega arith)))
]

-- The directive %d writes the digits behind what stands in the buffer.
emit_int-signed_digits :
    (cap size : ℕ) (out : Bytes) (v : ℤ)
    → IsInt v
    → length out + 12 ≤ size
    → size ≤ cap
    → emit_int cap size out v ≡ some (out ++ signed_digits v)
unfolding emit_int
emit_int-signed_digits cap size out (pos n) small room le =
    ap (emit_num cap size out) (num_digits-digits n (omega arith))
    ∙ emit_num-all cap size (digits n) out (omega (arith, length-digits n)) le
emit_int-signed_digits cap size out (negsuc n) small room le =
    let fits : ltb (n + 1) 2147483648 ≡ true = ground arith in
    rw (emit-room cap b'-' out (omega arith), fits)
      (ap (emit_num cap size (out ++ b'-' ∷ [])) (num_digits-digits (n + 1) (omega arith))
        ∙ emit_num-all cap size (digits (n + 1)) (out ++ b'-' ∷ [])
            (omega (arith, length-digits (n + 1), length-append out (b'-' ∷ []))) le
        ∙ ap some (append_assoc out (b'-' ∷ []) (digits (n + 1))))

-- The two conversions of stdio.cpp agree: with buffers of 12 bytes at least, and for every int but the
-- least one, `snprintf` of "%d" writes what `itoa` writes in base 10, and returns its length.
pub snprintf-eq-itoa :
    (cap size : ℕ) (v : ℤ)
    → IsInt v
    → 12 ≤ size
    → size ≤ cap
    → Returns
        (λ out.
          snprintf (some cap) size (some (codes "%d" ++ 0 ∷ [])) (int v ∷ [])
          ≡ some (pos (length out), out))
        (itoa 13 v 10 12)
unfolding snprintf first_os_build.Stdio.vsnprintf first_os_build.Stdio.format_loop
    first_os_build.Stdio.directive
snprintf-eq-itoa cap size v small room le =
    rw (itoa-digits 13 12 v (omega arith) (omega arith) small) (
      returns (
        let some_size : (size == 0) ≡ false = ground arith in
        let written : ltb 0 (size - 1) ≡ true = ground arith in
        rw
          (
            some_size,
            written,
            emit_int-signed_digits cap size [] v small (omega arith) le,
            lt→ltb (length (signed_digits v)) cap (omega (arith, length-signed_digits v)),
          )
          refl))
