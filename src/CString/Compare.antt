-- ===== src/CString/Compare.antt =====
-- kernel/string.cpp: the functions that read texts.
use first_os_build.Prelude.{
  ℕ, zero, suc, ◌-◌, ◌≤◌, ◌≡◌, ◌≢◌, ◌↔◌, inl, inr, refl, true, false, none, some, [], ◌∷◌, ◌++◌,
  Bytes, All, ◌==◌, pos, sub_ℕ, is_zero, arith, length, take, Bool-cases, leb, Returns, returns,
}
use first_os_build.Prelude.Maybe
use first_os_build.CString.{strlen, memcmp, strcmp}

-- No zero byte.
abbrev pub IsText : Bytes → Type 0
IsText = All (λ c. c ≢ 0)

-- The length of a text is found whatever stands behind its terminator.
pub strlen-text : (s rest : Bytes) → IsText s → strlen (s ++ 0 ∷ rest) ≡ some (length s)
unfolding strlen
strlen-text [] rest t = refl
strlen-text (c ∷ s) rest (ne, t) = ground (arith, strlen-text s rest t)

-- Without a terminator the loop leaves the object.
pub strlen-unterminated : (s : Bytes) → IsText s → strlen s ≡ none
unfolding strlen
strlen-unterminated [] t = refl
strlen-unterminated (c ∷ s) (ne, t) = ground (arith, strlen-unterminated s t)

is_zero-pos : (n : ℕ) → n ≢ 0 → is_zero (pos n) ≡ false
is_zero-pos zero h = absurd (h refl)
is_zero-pos (suc n) h = refl

pub is_zero-sub_ne : (x y : ℕ) → x ≢ y → is_zero (sub_ℕ x y) ≡ false
is_zero-sub_ne x y h = elim (Bool-cases (leb y x)) [
  | inl ge ↦ rw ge (is_zero-pos (x - y) (ground arith))
  | inr lt ↦ rw lt refl
]

-- The comparison of two texts always ends, and is 0 exactly if they are the same, whatever stands
-- behind their terminators.
pub strcmp-text :
    (s t r r' : Bytes)
    → IsText s
    → IsText t
    → Returns (λ d. (is_zero d ≡ true) ↔ (s ≡ t)) (strcmp (s ++ 0 ∷ r) (t ++ 0 ∷ r'))
unfolding strcmp
strcmp-text [] [] r r' hs ht = returns ((λ e. refl), (λ e. refl))
strcmp-text [] (y ∷ t) r r' hs (ny, ht) =
    returns ((λ e. absurd (ground (arith, is_zero-sub_ne 0 y))), (λ e. absurd (cc)))
strcmp-text (x ∷ s) [] r r' (nx, hs) ht =
    let more : (x == 0) ≡ false = ground arith in
    rw more (returns ((λ e. absurd (ground (arith, is_zero-sub_ne x 0))), (λ e. absurd (cc))))
strcmp-text (x ∷ s) (y ∷ t) r r' (nx, hs) (ny, ht) =
    let more : (x == 0) ≡ false = ground arith in
    rw more (elim (Bool-cases (x == y)) [
      | inl same ↦ rw same (
          Maybe.mono (strcmp-text s t r r' hs ht)
            λ d iff. ((λ e. ground (arith, iff.0 e)), (λ e. iff.1 (ground arith))))
      | inr differ ↦ rw differ (
          returns
            ((λ e. absurd (ground (arith, is_zero-sub_ne x y))), (λ e. absurd (ground arith))))
    ])

-- Between objects of at least `n` bytes, `memcmp` always ends, and is 0 exactly if their first `n`
-- bytes agree.
pub memcmp-take :
    (a b : Bytes) (n : ℕ)
    → n ≤ length a
    → n ≤ length b
    → Returns (λ d. (is_zero d ≡ true) ↔ (take n a ≡ take n b)) (memcmp a b n)
unfolding memcmp
memcmp-take a b zero ha hb = returns ((λ e. refl), (λ e. refl))
memcmp-take [] b (suc n) ha hb = absurd (omega arith)
memcmp-take (x ∷ a) [] (suc n) ha hb = absurd (omega arith)
memcmp-take (x ∷ a) (y ∷ b) (suc n) ha hb = elim (Bool-cases (x == y)) [
  | inl same ↦ rw same (
      Maybe.mono (memcmp-take a b n (omega arith) (omega arith))
        λ d iff. ((λ e. ground (arith, iff.0 e)), (λ e. iff.1 (ground arith))))
  | inr differ ↦
      rw differ
        (returns ((λ e. absurd (ground (arith, is_zero-sub_ne x y))), (λ e. absurd (ground arith))))
]
