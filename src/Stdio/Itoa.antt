-- ===== src/Stdio/Itoa.antt =====
-- kernel/stdio.cpp: `itoa` against the digits of Stdio/Decimal.antt.
use first_os_build.Prelude.{
  ℕ, zero, suc, ◌+◌, ◌/◌, ◌%◌, ◌^◌, ◌≤◌, ◌<◌, ◌≡◌, refl, true, false, some, [], ◌∷◌, ◌++◌, Bytes,
  ltb, ◌==◌, length, length-append, arith, Returns, returns, Bool-cases, inl, inr, ℤ, pos, negsuc,
  ap, sym, ◌∙◌, append_assoc, append-nil, lt→ltb,
}
use first_os_build.Stdio.{emit, itoa_loop, itoa, finish, digit_char}
use first_os_build.Stdio.Reverse.{turned, reverse-turned}
use first_os_build.Stdio.Decimal.{
  low_digits, signed_digits, IsInt, read_int, length-low_digits, pow_step, turned-last,
  read_int-signed_digits,
}

pub emit-room : (cap c : ℕ) (out : Bytes) → length out < cap → emit cap out c ≡ some (out ++ c ∷ [])
unfolding emit
emit-room cap c out h = rw (lt→ltb (length out) cap h) refl

-- The loop writes the digits from the last one on.
pub itoa_loop-digits :
    (k fuel n cap : ℕ) (out : Bytes)
    → n < 10 ^ k
    → k < fuel
    → length out + k ≤ cap
    → itoa_loop fuel false n 10 cap out ≡ some (out ++ low_digits k n)
unfolding itoa_loop low_digits digit_char
itoa_loop-digits k zero n cap out small enough room = absurd (omega arith)
itoa_loop-digits zero (suc fuel) n cap out small enough room =
    let none_left : (n == 0) ≡ true = ground arith in rw none_left (ap some (sym (append-nil out)))
itoa_loop-digits (suc k) (suc fuel) n cap out small enough room = elim (Bool-cases (n == 0)) [
  | inl none_left ↦ rw none_left (ap some (sym (append-nil out)))
  | inr more ↦
      let digit : ltb 9 (n % 10) ≡ false = ground arith in
      let byte : (n % 10 + b'0') % 256 ≡ n % 10 + b'0' = omega arith in
      rw (more, digit, byte, emit-room cap (n % 10 + b'0') out (omega arith))
        (itoa_loop-digits k fuel (n / 10) cap (out ++ (n % 10 + b'0') ∷ [])
            (omega (arith, pow_step k)) (omega arith)
            (omega (arith, length-append out ((n % 10 + b'0') ∷ [])))
          ∙ ap some (append_assoc out ((n % 10 + b'0') ∷ []) (low_digits k (n / 10))))
]

pub finish-turned :
    (fuel cap : ℕ) (out : Bytes)
    → length out < cap
    → length out < fuel
    → finish fuel cap out ≡ some (turned out)
unfolding finish
finish-turned fuel cap out room enough =
    rw (lt→ltb (length out) cap room) (reverse-turned fuel out enough)

-- In base 10, on fuel for 13 rounds and with a buffer of 12 bytes at least, `itoa` prints every int
-- but the least one: a sign if it is negative, and its digits.
pub itoa-digits :
    (fuel cap : ℕ) (v : ℤ)
    → 12 < fuel
    → 12 ≤ cap
    → IsInt v
    → itoa fuel v 10 cap ≡ some (signed_digits v)
unfolding itoa
itoa-digits fuel cap (pos zero) enough room small =
    rw (emit-room cap b'0' [] (omega arith), lt→ltb 1 cap (omega arith)) refl
itoa-digits fuel cap (pos (suc n)) enough room small =
    let few = length-low_digits 10 (suc n) in
    let some_n : (suc n == 0) ≡ false = ground arith in
    rw (itoa_loop-digits 10 fuel (suc n) cap [] (omega arith) (omega arith) (omega arith), some_n)
      (finish-turned fuel cap (low_digits 10 (suc n)) (omega (arith, few)) (omega (arith, few)))
itoa-digits fuel cap (negsuc n) enough room small =
    let few = length-low_digits 10 (n + 1) in
    let longer = length-append (low_digits 10 (n + 1)) (b'-' ∷ []) in
    let some_n : (n + 1 == 0) ≡ false = ground arith in
    let fits : ltb (n + 1) 2147483648 ≡ true = ground arith in
    rw
      (
        fits,
        itoa_loop-digits 10 fuel (n + 1) cap [] (omega arith) (omega arith) (omega arith),
        emit-room cap b'-' (low_digits 10 (n + 1)) (omega (arith, few)),
        some_n,
      )
      (finish-turned fuel cap (low_digits 10 (n + 1) ++ b'-' ∷ []) (omega (arith, few, longer))
          (omega (arith, few, longer))
        ∙ ap some (turned-last (low_digits 10 (n + 1)) b'-'))

-- What `itoa` prints in base 10 is read back as the number it was given: for every int but the least
-- one, on fuel for 13 rounds and with a buffer of 12 bytes at least.
pub itoa-read_int :
    (fuel cap : ℕ) (v : ℤ)
    → 12 < fuel
    → 12 ≤ cap
    → IsInt v
    → Returns (λ out. read_int out ≡ v) (itoa fuel v 10 cap)
itoa-read_int fuel cap v enough room small =
    rw (itoa-digits fuel cap v enough room small) (returns (read_int-signed_digits v small))
