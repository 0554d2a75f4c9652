-- ===== src/Stdio/Plain.antt =====
-- kernel/stdio.cpp: what `format_loop` makes of the parts of a format.
use first_os_build.Prelude.{
  ℕ, ◌+◌, ◌-◌, ◌≤◌, ◌<◌, ◌≡◌, ◌≢◌, refl, true, false, some, List, [], ◌∷◌, ◌++◌, Bytes, ltb, leb,
  ◌==◌, length, length-append, arith, All, append_assoc, append-nil, ap, ◌∙◌, sym, ℤ,
}
use first_os_build.CString.Compare.{IsText, strlen-text}
use first_os_build.Stdio.{Arg, int, text, emit_bytes, emit_text, directive, format_loop}
use first_os_build.Stdio.Itoa.{emit-room}

-- Neither the end of a format nor a directive.
abbrev pub IsPlain : Bytes → Type 0
IsPlain = All (λ c. (c ≢ 0) × (c ≢ b'%'))

-- A plain part is written as it is.
pub format_loop-plain :
    (cap size : ℕ) (cs : Bytes) (d : ℕ) (f : Bytes) (args : List Arg) (out : Bytes)
    → IsPlain cs
    → length out + length cs < size
    → size ≤ cap
    → format_loop cap size (cs ++ d ∷ f) args out ≡ format_loop cap size (d ∷ f) args (out ++ cs)
unfolding format_loop
format_loop-plain cap size [] d f args out p fits room =
    ap (format_loop cap size (d ∷ f) args) (sym (append-nil out))
format_loop-plain cap size (c ∷ []) d f args out ((nz, np), p) fits room =
    let more : (c == 0) ≡ false = ground arith in
    let plain : (c == b'%') ≡ false = ground arith in
    let space : ltb (length out) (size - 1) ≡ true = ground arith in
    rw (more, space, plain, emit-room cap c out (omega arith)) refl
format_loop-plain cap size (c ∷ c' ∷ cs) d f args out ((nz, np), p) fits room =
    let more : (c == 0) ≡ false = ground arith in
    let plain : (c == b'%') ≡ false = ground arith in
    let space : ltb (length out) (size - 1) ≡ true = ground arith in
    rw (more, space, plain, emit-room cap c out (omega arith))
      (format_loop-plain cap size (c' ∷ cs) d f args (out ++ c ∷ []) p
          (omega (arith, length-append out (c ∷ []))) room
        ∙ ap (format_loop cap size (d ∷ f) args) (append_assoc out (c ∷ []) (c' ∷ cs)))

emit_bytes-text :
    (cap : ℕ) (t rest out : Bytes)
    → length out + length t ≤ cap
    → emit_bytes cap out (t ++ rest) (length t) ≡ some (out ++ t)
unfolding emit_bytes
emit_bytes-text cap [] rest out fits = ap some (sym (append-nil out))
emit_bytes-text cap (c ∷ t) rest out fits = rw (emit-room cap c out (omega arith)) (
    emit_bytes-text cap t rest (out ++ c ∷ []) (omega (arith, length-append out (c ∷ [])))
    ∙ ap some (append_assoc out (c ∷ []) t))

-- "%s" with a text that fits.
pub format_loop-text :
    (cap size : ℕ) (t rest f : Bytes) (args : List Arg) (out : Bytes)
    → IsText t
    → length out + length t + 1 < size
    → size ≤ cap
    → format_loop cap size (b'%' ∷ b's' ∷ f) (text (some (t ++ 0 ∷ rest)) ∷ args) out
      ≡ format_loop cap size f args (out ++ t)
unfolding format_loop directive emit_text
format_loop-text cap size t rest f args out ht fits room =
    let space : ltb (length out) (size - 1) ≡ true = ground arith in
    let short : leb (size - 1) (length out + length t) ≡ false = ground arith in
    rw (space, strlen-text t rest ht, short, emit_bytes-text cap t (0 ∷ rest) out (omega arith))
      refl

-- A directive that is not known writes its character, and takes no argument.
pub format_loop-unknown :
    (cap size c : ℕ) (v : ℤ) (f : Bytes) (args : List Arg) (out : Bytes)
    → c ≢ 0
    → c ≢ b's'
    → c ≢ b'd'
    → length out + 1 < size
    → size ≤ cap
    → format_loop cap size (b'%' ∷ c ∷ f) (int v ∷ args) out
      ≡ format_loop cap size f (int v ∷ args) (out ++ c ∷ [])
unfolding format_loop directive
format_loop-unknown cap size c v f args out nz ns nd fits room =
    let space : ltb (length out) (size - 1) ≡ true = ground arith in
    let more : (c == 0) ≡ false = ground arith in
    let no_text : (c == b's') ≡ false = ground arith in
    let no_int : (c == b'd') ≡ false = ground arith in
    rw (space, more, no_text, no_int, emit-room cap c out (omega arith)) refl
