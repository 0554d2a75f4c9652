-- ===== src/Stdio/Directives.antt =====
-- kernel/stdio.cpp: `snprintf` keeps within its buffer, and the directives it knows.
use first_os_build.Prelude.{
  ℕ, zero, suc, ◌+◌, ◌-◌, ◌≤◌, ◌<◌, ◌≡◌, refl, false, Option, none, some, List, [], ◌∷◌, ◌++◌,
  Bytes, codes, ltb, leb, ◌==◌, if◌then◌else◌, ◌>>=◌, length, length-append, ℤ, pos, negsuc, arith,
  Returns, returns, Bool-cases, Option-cases, inl, inr, lt→ltb,
}
use first_os_build.Prelude.Maybe
use first_os_build.CString.{strlen}
use first_os_build.Stdio.{
  Arg, int, text, emit, emit_bytes, emit_num, emit_text, emit_int, directive, format_loop,
  vsnprintf, snprintf, num_digits, rev_append, magnitude,
}

-- The bytes written so far leave room for the terminator.
abbrev pub Fits : ℕ → Bytes → Type 0
Fits size out = length out ≤ size - 1

emit-Fits :
    (cap out_max c : ℕ) (out : Bytes)
    → length out < out_max
    → out_max ≤ cap
    → Returns (λ out'. length out' ≡ length out + 1) (emit cap out c)
unfolding emit
emit-Fits cap m c out h room =
    rw (lt→ltb (length out) cap (omega arith)) (returns (omega (arith, length-append out (c ∷ []))))

emit_bytes-Fits :
    (cap n : ℕ) (s out : Bytes)
    → n ≤ length s
    → length out + n ≤ cap
    → Returns (λ out'. length out' ≡ length out + n) (emit_bytes cap out s n)
unfolding emit_bytes
emit_bytes-Fits cap zero s out hs room = returns (omega arith)
emit_bytes-Fits cap (suc n) [] out hs room = absurd (omega arith)
emit_bytes-Fits cap (suc n) (c ∷ s) out hs room =
    Maybe.bind (emit-Fits cap cap c out (omega arith) (omega arith)) λ out' e.
      Maybe.mono (emit_bytes-Fits cap n s out' (omega arith) (omega arith)) λ out'' e'. omega arith

emit_num-Fits :
    (cap size : ℕ) (num out : Bytes)
    → Fits size out
    → size ≤ cap
    → Returns (Fits size) (emit_num cap size out num)
unfolding emit_num
emit_num-Fits cap size [] out h room = returns h
emit_num-Fits cap size (c ∷ num) out h room = elim (Bool-cases (ltb (length out) (size - 1))) [
  | inl more ↦ rw more (
      Maybe.bind (emit-Fits cap cap c out (ground arith) (omega arith))
        λ out' e. emit_num-Fits cap size num out' (ground arith) room)
  | inr full ↦ rw full (returns h)
]

strlen-le : (s : Bytes) (n : ℕ) → strlen s ≡ some n → n ≤ length s
unfolding strlen
strlen-le [] n e = cc
strlen-le (c ∷ s) n e = elim (Bool-cases (c == 0)) [
  | inl stop ↦ ground arith
  | inr more ↦ elim (Option-cases (strlen s)) [
    | inl endless ↦ ground arith
    | inr (k, e') ↦ ground (arith, strlen-le s k e')
  ]
]

-- An argument of the type that the directive reads: a text that is null or terminated, an int that
-- has a negative.
abbrev pub Readable : Arg → Type 0
Readable (text none) = Unit
Readable (text (some s)) = (n : ℕ) × (strlen s ≡ some n)
Readable (int v) = (m : ℕ) × (magnitude v ≡ some m)

-- What the directive `d` takes from the arguments, and `k` of those behind.
abbrev pub Takes : ℕ → List Arg → (List Arg → Type 0) → Type 0
Takes d (text s ∷ args) k =
    if d == b's' then Readable (text s) × k args else if d == b'd' then ⊥ else k (text s ∷ args)
Takes d (int v ∷ args) k =
    if d == b's' then ⊥ else if d == b'd' then Readable (int v) × k args else k (int v ∷ args)
Takes d [] k = if d == b's' then ⊥ else if d == b'd' then ⊥ else k []

-- The format is terminated, and its directives fit the arguments.
abbrev pub Matches : Bytes → List Arg → Type 0
Matches [] args = ⊥
Matches (c ∷ []) args = c ≡ 0
Matches (c ∷ d ∷ f) args =
    if c == 0
    then Unit
    else if c == b'%'
    then (if d == 0 then Unit else Takes d args (Matches f))
    else Matches (d ∷ f) args

cut_text :
    (cap size : ℕ) (out s : Bytes) (n : ℕ)
    → length out < size - 1
    → size ≤ cap
    → strlen s ≡ some n
    → Returns (Fits size) (
        strlen s >>= λ len.
        emit_bytes cap out s
          (if leb (size - 1) (length out + len) then size - length out - 1 else len))
cut_text cap size out s n h room e =
    let kept : ℕ = if leb (size - 1) (length out + n) then size - length out - 1 else n in
    rw e (
      Maybe.mono (emit_bytes-Fits cap kept s out (ground (arith, strlen-le s n e)) (ground arith))
        λ out' e'. ground arith)

plain_directive :
    (cap size d : ℕ) (args : List Arg) (out : Bytes) (K : List Arg → Type 0)
    → length out < size - 1
    → size ≤ cap
    → K args
    → Returns
        (λ (args', out'). K args' × Fits size out')
        (emit cap out d >>= λ out'. some (args, out'))
plain_directive cap size d args out K h room k =
    Maybe.bind (emit-Fits cap cap d out (omega arith) (omega arith))
      λ out' e. returns (k, omega arith)

emit_text-Fits :
    (cap size : ℕ) (out : Bytes) (s : Option Bytes)
    → length out < size - 1
    → size ≤ cap
    → Readable (text s)
    → Returns (Fits size) (emit_text cap size out s)
unfolding emit_text strlen
emit_text-Fits cap size out none h room r =
    cut_text cap size out (codes "(null)" ++ (0 ∷ [])) 6 h room refl
emit_text-Fits cap size out (some s) h room (n, e) = cut_text cap size out s n h room e

emit_int-Fits :
    (cap size : ℕ) (out : Bytes) (v : ℤ)
    → length out < size - 1
    → size ≤ cap
    → Readable (int v)
    → Returns (Fits size) (emit_int cap size out v)
unfolding emit_int
emit_int-Fits cap size out (pos k) h room (m, e) =
    emit_num-Fits cap size (rev_append (num_digits 31 k) []) out (omega arith) room
emit_int-Fits cap size out (negsuc k) h room (m, e) =
    Maybe.bind (emit-Fits cap cap b'-' out (omega arith) (omega arith)) λ out' e'.
      rw e (emit_num-Fits cap size (rev_append (num_digits 31 m) []) out' (omega arith) room)

directive-Fits :
    (cap size d : ℕ) (args : List Arg) (out : Bytes) (K : List Arg → Type 0)
    → length out < size - 1
    → size ≤ cap
    → Takes d args K
    → Returns (λ (args', out'). K args' × Fits size out') (directive cap size d args out)
unfolding directive
directive-Fits cap size d [] out K h room t = elim (Bool-cases (d == b's')) [
  | inl s ↦ absurd (rw s at t)
  | inr not_s ↦
      let t' = rw not_s at t in
      elim (Bool-cases (d == b'd')) [
        | inl i ↦ absurd (rw i at t')
        | inr not_d ↦
            rw (not_s, not_d) (plain_directive cap size d [] out K h room (rw not_d at t'))
      ]
]
directive-Fits cap size d (text x ∷ args) out K h room t = elim (Bool-cases (d == b's')) [
  | inl s ↦
      let t' = rw s at t in
      rw s
        (Maybe.bind (emit_text-Fits cap size out x h room t'.0) λ out' fits. returns (t'.1, fits))
  | inr not_s ↦
      let t' = rw not_s at t in
      elim (Bool-cases (d == b'd')) [
        | inl i ↦ absurd (rw i at t')
        | inr not_d ↦
            rw (not_s, not_d)
              (plain_directive cap size d (text x ∷ args) out K h room (rw not_d at t'))
      ]
]
directive-Fits cap size d (int v ∷ args) out K h room t = elim (Bool-cases (d == b's')) [
  | inl s ↦ absurd (rw s at t)
  | inr not_s ↦
      let t' = rw not_s at t in
      elim (Bool-cases (d == b'd')) [
        | inl i ↦
            let t'' = rw i at t' in
            rw (not_s, i)
              (Maybe.bind (emit_int-Fits cap size out v h room t''.0)
                λ out' fits. returns (t''.1, fits))
        | inr not_d ↦
            rw (not_s, not_d)
              (plain_directive cap size d (int v ∷ args) out K h room (rw not_d at t'))
      ]
]

format_loop-Fits :
    (cap size : ℕ) (f : Bytes) (args : List Arg) (out : Bytes)
    → Fits size out
    → size ≤ cap
    → Matches f args
    → Returns (Fits size) (format_loop cap size f args out)
unfolding format_loop
format_loop-Fits cap size [] args out h room m = absurd m
format_loop-Fits cap size (c ∷ []) args out h room m = rw m (returns h)
format_loop-Fits cap size (c ∷ d ∷ f) args out h room m = elim (Bool-cases (c == 0)) [
  | inl stop ↦ rw stop (returns h)
  | inr on ↦
      let m' = rw on at m in
      elim (Bool-cases (ltb (length out) (size - 1))) [
        | inr full ↦ rw (on, full) (returns h)
        | inl more ↦ elim (Bool-cases (c == b'%')) [
          | inr plain ↦
              let m'' = rw plain at m' in
              rw (on, more, plain)
                (Maybe.bind (emit-Fits cap cap c out (ground arith) (omega arith))
                  λ out' e. format_loop-Fits cap size (d ∷ f) args out' (ground arith) room m'')
          | inl percent ↦
              let m'' = rw percent at m' in
              elim (Bool-cases (d == 0)) [
                | inl cut ↦ rw (on, more, percent, cut) (returns h)
                | inr special ↦
                    rw (on, more, percent, special)
                      (Maybe.bind
                        (directive-Fits cap size d args out (Matches f) (ground arith) room
                          (rw special at m''))
                        λ (args', out') (rest, fits).
                          format_loop-Fits cap size f args' out' fits room rest)
              ]
        ]
      ]
]

-- With a positive size of at most the buffer's, a format that is terminated, and arguments that match
-- its directives, `snprintf` always ends within the buffer. It returns the length of the text, which
-- leaves room for the terminator.
pub snprintf_bounds :
    (cap size : ℕ) (format : Bytes) (args : List Arg)
    → 0 < size
    → size ≤ cap
    → Matches format args
    → Returns
        (λ (n, out). (n ≡ pos (length out)) × (length out < size))
        (snprintf (some cap) size (some format) args)
unfolding snprintf vsnprintf
snprintf_bounds cap size format args some_size room m =
    let positive : (size == 0) ≡ false = ground arith in
    rw positive (
      Maybe.bind (format_loop-Fits cap size format args [] (omega arith) room m)
        λ out fits. rw (lt→ltb (length out) cap (omega arith)) (returns (refl, omega arith)))
