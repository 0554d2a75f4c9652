-- ===== src/CString/Move.antt =====
-- kernel/string.cpp: `memmove`.
use first_os_build.Prelude.{
  ℕ, zero, suc, ◌+◌, ◌≤◌, ◌<◌, ◌≡◌, ltb, arith, fun_ext, ◌∙◌, Bool-cases, inl, inr,
}
use first_os_build.Memory.{Ptr}
use first_os_build.Memory.Realloc.{copied}
use first_os_build.CString.{store_byte, move_up, move_down, memmove}

move_up-copied : (n d s : ℕ) (f : Ptr → ℕ) → d < s → move_up n d s f ≡ copied f d s n
unfolding move_up
move_up-copied zero d s f h = fun_ext λ a. ground arith
move_up-copied (suc n) d s f h =
    move_up-copied n (d + 1) (s + 1) (store_byte f d (f s)) (omega arith)
    ∙ fun_ext λ a. ground arith

move_down-copied : (n d s : ℕ) (f : Ptr → ℕ) → s ≤ d → move_down n d s f ≡ copied f d s n
unfolding move_down
move_down-copied zero d s f h = fun_ext λ a. ground arith
move_down-copied (suc n) d s f h =
    move_down-copied n d s (store_byte f (d + n) (f (s + n))) h ∙ fun_ext λ a. ground arith

-- `memmove` copies byte for byte what stood at the source before, however the areas overlap, and
-- changes nothing else.
pub memmove-copied : (d s n : ℕ) (f : Ptr → ℕ) → memmove d s n f ≡ copied f d s n
unfolding memmove
memmove-copied d s n f = elim (Bool-cases (ltb d s)) [
  | inl up ↦ rw up (move_up-copied n d s f (ground arith))
  | inr down ↦ rw down (move_down-copied n d s f (ground arith))
]
