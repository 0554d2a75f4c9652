-- ===== src/Interrupts/Numbers.antt =====
-- kernel/interrupts.cpp: `int_to_string` against `itoa` of kernel/stdio.cpp.
use first_os_build.Prelude.{
  ℕ, zero, suc, ◌+◌, ◌/◌, ◌%◌, ◌≡◌, refl, ap, fun_ext, false, some, [], Bytes, ◌>>=◌, ◌==◌,
  if◌then◌else◌, ltb, arith, ℤ, pos, negsuc,
}
use first_os_build.Stdio.{emit, digit_char, itoa_loop, itoa, finish, magnitude}
use first_os_build.Interrupts.{int_to_string_loop, int_to_string}

loop-eq :
    (fuel num size : ℕ) (out : Bytes)
    → int_to_string_loop fuel num size out ≡ itoa_loop fuel false num 10 size out
unfolding int_to_string_loop itoa_loop digit_char
loop-eq zero num size out = refl
loop-eq (suc fuel) num size out =
    let small : ltb 9 (num % 10) ≡ false = ground arith in
    rw small (
      ap (λ k. if num == 0 then some out else (emit size out ((num % 10 + b'0') % 256) >>= k))
        (fun_ext λ out'. loop-eq fuel (num / 10) size out'))

-- The two conversions of the kernel agree in base 10, on every int and with every buffer.
pub int_to_string-eq-itoa :
    (fuel size : ℕ) (v : ℤ) → int_to_string fuel v size ≡ itoa fuel v 10 size
unfolding int_to_string itoa
int_to_string-eq-itoa fuel size (pos zero) = refl
int_to_string-eq-itoa fuel size (pos (suc n)) = rw (loop-eq fuel (suc n) size []) refl
int_to_string-eq-itoa fuel size (negsuc n) =
    ap (λ k. magnitude (negsuc n) >>= k)
      (fun_ext λ m.
        ap (λ k. k >>= λ out. emit size out b'-' >>= finish fuel size) (loop-eq fuel m size []))
