-- ===== src/Prelude/Text.antt =====
-- Bytes, texts as lists of bytes, and checks of every value of a small range.
use Prim.Native.Nat.{ℕ, zero, suc, ◌<◌}
use Prim.Native.Char.{code}
use Prim.Native.String.{String}
use mathlib.Core.Path.{◌≡◌}
use mathlib.Core.Bool.{Bool, true, not, ◌&&◌}
use mathlib.Core.Logic.{◌≢◌, inl, inr}
use first_os_build.Prelude.Tests.{◌==◌, Bool-cases}
use mathlib.Core.List.{List, [], ◌∷◌, ◌++◌}
use native.Mathlib.Omega.{arith}

abbrev pub Bytes : Type 0
Bytes = List ℕ

-- The bytes of a literal, which is ASCII throughout.
abbrev pub codes : String → Bytes
codes String.[] = []
codes (String.◌∷◌ c s) = code c ∷ codes s

-- Every element has the property.
abbrev pub All {ℓ κ} : {A : Type ℓ} → (A → Type κ) → List A → Type κ
All P [] = Unit
All P (x ∷ xs) = P x × All P xs

-- The test holds of each number below the bound.
unfoldable pub every_below : ℕ → (ℕ → Bool) → Bool
every_below zero test = true
every_below (suc k) test = every_below k test && test k

pub every_below-at :
    (bound : ℕ) (test : ℕ → Bool)
    → every_below bound test ≡ true
    → (i : ℕ) → i < bound
    → test i ≡ true
unfolding every_below
every_below-at zero test all i small = absurd (omega arith)
every_below-at (suc k) test all i small =
    ground (arith, λ (rest : every_below k test ≡ true). every_below-at k test rest i)

pub All-append {ℓ κ} :
    {A : Type ℓ} (P : A → Type κ) (xs ys : List A) → All P xs → All P ys → All P (xs ++ ys)
All-append P [] ys hx hy = hy
All-append P (x ∷ xs) ys (px, hx) hy = (px, All-append P xs ys hx hy)

-- No zero byte: as a test, for the texts in the code.
abbrev pub is_text : Bytes → Bool
is_text [] = true
is_text (c ∷ cs) = not (c == 0) && is_text cs

pub is_text-IsText : (cs : Bytes) → is_text cs ≡ true → All (λ c. c ≢ 0) cs
is_text-IsText [] h = tt
is_text-IsText (c ∷ cs) h = elim (Bool-cases (c == 0)) [
  | inl at_end ↦ absurd (ground arith)
  | inr other ↦ ((λ e. absurd (ground arith)), is_text-IsText cs (ground arith))
]
