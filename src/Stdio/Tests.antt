-- ===== src/Stdio/Tests.antt =====
-- The formatters at concrete inputs.
use first_os_build.Prelude.{
  ◌<◌, ◌≡◌, refl, some, [], ◌∷◌, ◌++◌, Bytes, codes, arith, Returns, length, pos, negsuc,
}
use first_os_build.Stdio.{Arg, int, text, snprintf, itoa}
use first_os_build.Stdio.Decimal.{read_int}
use first_os_build.Stdio.Directives.{snprintf_bounds}
use first_os_build.Stdio.Itoa.{itoa-read_int}
use first_os_build.Stdio.Printed.{snprintf-eq-itoa}

-- "%d!"
abbrev number_format : Bytes
number_format = b'%' ∷ b'd' ∷ b'!' ∷ 0 ∷ []

snprintf_bounds_example :
    Returns
      (λ (n, out). (n ≡ pos (length out)) × (length out < 3))
      (snprintf (some 8) 3 (some number_format) (int (negsuc 41) ∷ []))
snprintf_bounds_example =
    snprintf_bounds 8 3 number_format (int (negsuc 41) ∷ []) (omega arith) (omega arith)
      ((42, refl), refl)

status_format :
    snprintf (some 80) 80 (some (codes "%.20s" ++ 0 ∷ [])) [] ≡ some (pos 4, codes ".20s")
unfolding snprintf first_os_build.Stdio.vsnprintf first_os_build.Stdio.format_loop
    first_os_build.Stdio.directive first_os_build.Stdio.emit
status_format = refl

itoa-read_int_example : Returns (λ out. read_int out ≡ negsuc 41) (itoa 13 (negsuc 41) 10 12)
itoa-read_int_example = itoa-read_int 13 12 (negsuc 41) (omega arith) (omega arith) (omega arith)

snprintf-eq-itoa_example :
    Returns
      (λ out.
        snprintf (some 20) 16 (some (codes "%d" ++ 0 ∷ [])) (int (negsuc 41) ∷ [])
        ≡ some (pos (length out), out))
      (itoa 13 (negsuc 41) 10 12)
snprintf-eq-itoa_example =
    snprintf-eq-itoa 20 16 (negsuc 41) (omega arith) (omega arith) (omega arith)
