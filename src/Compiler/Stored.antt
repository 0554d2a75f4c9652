-- ===== src/Compiler/Stored.antt =====
-- kernel/compiler.cpp: a list of bytes put into memory.
use first_os_build.Prelude.{
  ℕ, zero, suc, ◌+◌, ◌-◌, ◌≤◌, ◌<◌, ◌≡◌, ◌⊎◌, refl, ◌&&◌, [], ◌∷◌, Bytes, arith, ◌==◌, ltb, leb,
  if◌then◌else◌, length, ap, ap₂, ◌∙◌, get_or, fun_ext,
}
use first_os_build.Compiler.{bytes_at, store_bytes}
use first_os_build.Memory.{Ptr, Memory}
use first_os_build.Memory.Realloc.{with_bytes}

-- A list of bytes put at `p`.
abbrev pub stored : (Ptr → ℕ) → Ptr → Bytes → Ptr → ℕ
stored f p cs a = if leb p a && ltb a (p + length cs) then get_or cs (a - p) 0 else f a

get_or-suc : (c : ℕ) (cs : Bytes) (i : ℕ) → 0 < i → get_or (c ∷ cs) i 0 ≡ get_or cs (i - 1) 0
get_or-suc c cs zero h = absurd (omega arith)
get_or-suc c cs (suc i) h = ap (λ k. get_or cs k 0) (omega arith)

pub store_bytes-stored :
    (p : ℕ) (cs : Bytes) (m : Memory) → store_bytes p cs m ≡ with_bytes m (stored m.byte p cs)
unfolding store_bytes
store_bytes-stored p [] m = ap (with_bytes m) (fun_ext λ a. ground arith)
store_bytes-stored p (c ∷ cs) m =
    store_bytes-stored (p + 1) cs (with_bytes m (λ a. if a == p then c else m.byte a))
    ∙ ap (with_bytes m) (
        fun_ext λ a. ground (
          arith,
          get_or-suc c cs (a - p),
          λ (k : ℕ) (e : k ≡ 0). ap (λ (j : ℕ). get_or (c ∷ cs) j 0) e,
        ))

pub stored-outside :
    (f : Ptr → ℕ) (p : ℕ) (cs : Bytes) (a : ℕ)
    → (a < p) ⊎ (p + length cs ≤ a)
    → stored f p cs a ≡ f a
stored-outside f p cs a out = ground arith

bytes_at-get_or :
    (cs : Bytes) (m : Memory) (p : ℕ)
    → ((i : ℕ) → i < length cs → m.byte (p + i) ≡ get_or cs i 0)
    → bytes_at m p (length cs) ≡ cs
unfolding bytes_at
bytes_at-get_or [] m p h = refl
bytes_at-get_or (c ∷ cs) m p h =
    ap₂ ◌∷◌ (ap m.byte (omega arith) ∙ h 0 (omega arith))
      (bytes_at-get_or cs m (p + 1) λ i lt. ap m.byte (omega arith) ∙ h (suc i) (omega arith))

pub bytes_at-stored :
    (p : ℕ) (cs : Bytes) (m : Memory) (f : Ptr → ℕ)
    → bytes_at (with_bytes m (stored f p cs)) p (length cs) ≡ cs
bytes_at-stored p cs m f =
    bytes_at-get_or cs (with_bytes m (stored f p cs)) p λ i lt.
      let at : p + i - p ≡ i = omega arith in ground (arith, ap (λ (j : ℕ). get_or cs j 0) at)
