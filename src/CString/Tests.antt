-- ===== src/CString/Tests.antt =====
-- The string functions at concrete inputs.
use first_os_build.Prelude.{◌≡◌, some, [], ◌∷◌, ◌++◌, Bytes, arith}
use first_os_build.CString.{strlen, memmove}
use first_os_build.CString.Compare.{IsText, strlen-text}
use first_os_build.CString.Move.{memmove-copied}
use first_os_build.Memory.Realloc.{copied}

-- "ab" and "abc", without their terminators
abbrev ab : Bytes
ab = b'a' ∷ b'b' ∷ []

abbrev abc : Bytes
abc = b'a' ∷ b'b' ∷ b'c' ∷ []

ab-IsText : IsText ab
ab-IsText = (ground arith, (ground arith, tt))

abc-IsText : IsText abc
abc-IsText = (ground arith, (ground arith, (ground arith, tt)))

strlen-text_example : strlen (ab ++ 0 ∷ abc) ≡ some 2
strlen-text_example = strlen-text ab abc ab-IsText

memmove-copied_example : memmove 12 10 5 (λ p. p) ≡ copied (λ p. p) 12 10 5
memmove-copied_example = memmove-copied 12 10 5 (λ p. p)
