-- ===== src/Stdio/Decimal.antt =====
-- What kernel/stdio.cpp prints for a number: its decimal digits, and how they are read.
use first_os_build.Prelude.{
  ℕ, zero, suc, ◌+◌, ◌-◌, ◌*◌, ◌/◌, ◌%◌, ◌^◌, ◌≤◌, ◌<◌, ◌≡◌, refl, true, false, [], ◌∷◌, ◌++◌,
  Bytes, All, ◌==◌, if◌then◌else◌, length, arith, Bool-cases, inl, inr, ℤ, pos, negsuc, ap, sym,
  ◌∙◌, subst, All-append,
}
use native.Mathlib.Numerals.{unary_clauses}
use first_os_build.Stdio.{rev_append}
use first_os_build.Stdio.Reverse.{turned, turned-cons, length-turned}

-- The digits of a number of at most `k` digits, the last one first; 0 has none.
unfoldable pub low_digits : ℕ → ℕ → Bytes
low_digits zero n = []
low_digits (suc k) n = if n == 0 then [] else (n % 10 + b'0') ∷ low_digits k (n / 10)

-- The digits of an int, as it is written.
abbrev pub digits : ℕ → Bytes
digits n = if n == 0 then b'0' ∷ [] else turned (low_digits 10 n)

abbrev pub signed_digits : ℤ → Bytes
signed_digits (pos n) = digits n
signed_digits (negsuc n) = b'-' ∷ digits (n + 1)

-- An int of 32 bits with a negative of its own.
abbrev pub IsInt : ℤ → Type 0
IsInt (pos n) = n < 2147483648
IsInt (negsuc n) = n + 1 < 2147483648

-- The number that digits stand for, behind those of `n`.
unfoldable pub number : ℕ → Bytes → ℕ
number n [] = n
number n (c ∷ cs) = number (n * 10 + (c - b'0')) cs

abbrev pub read_int : Bytes → ℤ
read_int [] = pos 0
read_int (c ∷ cs) = if c == b'-' then negsuc (number 0 cs - 1) else pos (number 0 (c ∷ cs))

pub length-low_digits : (k n : ℕ) → length (low_digits k n) ≤ k
unfolding low_digits
length-low_digits zero n = omega arith
length-low_digits (suc k) n = ground (arith, length-low_digits k (n / 10))

pub pow_step : (k : ℕ) → 10 ^ suc k ≡ 10 * 10 ^ k
pow_step k = simp unary_clauses (omega arith)

pub turned-last : (xs : Bytes) (c : ℕ) → turned (xs ++ c ∷ []) ≡ c ∷ turned xs
unfolding rev_append
turned-last [] c = refl
turned-last (x ∷ xs) c =
    turned-cons x (xs ++ c ∷ [])
    ∙ ap (λ ys. ys ++ x ∷ []) (turned-last xs c)
    ∙ ap (◌∷◌ c) (sym (turned-cons x xs))

pub number-append :
    (n : ℕ) (cs : Bytes) (c : ℕ) → number n (cs ++ c ∷ []) ≡ number n cs * 10 + (c - b'0')
unfolding number
number-append n [] c = refl
number-append n (d ∷ cs) c = number-append (n * 10 + (d - b'0')) cs c

pub number-nil : number 0 (turned []) ≡ 0
unfolding number rev_append
number-nil = refl

pub number-low_digits : (k n : ℕ) → n < 10 ^ k → number 0 (turned (low_digits k n)) ≡ n
unfolding low_digits
number-low_digits zero n small = number-nil ∙ omega arith
number-low_digits (suc k) n small = elim (Bool-cases (n == 0)) [
  | inl none_left ↦ rw none_left (number-nil ∙ ground arith)
  | inr more ↦
      let digit : ℕ = n % 10 + b'0' in
      rw more (
        ap (number 0) (turned-cons digit (low_digits k (n / 10)))
        ∙ number-append 0 (turned (low_digits k (n / 10))) digit
        ∙ omega (arith, number-low_digits k (n / 10) (omega (arith, pow_step k))))
]

-- The first digit is no sign.
abbrev pub IsDigits : Bytes → Type 0
IsDigits = All (λ c. b'0' ≤ c)

pub low_digits-IsDigits : (k n : ℕ) → IsDigits (low_digits k n)
unfolding low_digits
low_digits-IsDigits zero n = tt
low_digits-IsDigits (suc k) n = elim (Bool-cases (n == 0)) [
  | inl none_left ↦ rw none_left tt
  | inr more ↦ rw more (omega arith, low_digits-IsDigits k (n / 10))
]

pub turned-IsDigits : (cs : Bytes) → IsDigits cs → IsDigits (turned cs)
unfolding rev_append
turned-IsDigits [] h = tt
turned-IsDigits (c ∷ cs) (hc, h) =
    subst IsDigits (sym (turned-cons c cs))
      (All-append _ (turned cs) (c ∷ []) (turned-IsDigits cs h) (hc, tt))

pub read_int-digits : (cs : Bytes) → IsDigits cs → read_int cs ≡ pos (number 0 cs)
unfolding number
read_int-digits [] h = refl
read_int-digits (c ∷ cs) (hc, h) = let sign : (c == b'-') ≡ false = ground arith in rw sign refl

pub digits-number : (n : ℕ) → n < 10 ^ 10 → number 0 (digits n) ≡ n
unfolding number
digits-number n small = elim (Bool-cases (n == 0)) [
  | inl none_left ↦ rw none_left (ground arith)
  | inr more ↦ rw more (number-low_digits 10 n small)
]

pub digits-IsDigits : (n : ℕ) → IsDigits (digits n)
digits-IsDigits n = elim (Bool-cases (n == 0)) [
  | inl none_left ↦ rw none_left (omega arith, tt)
  | inr more ↦ rw more (turned-IsDigits (low_digits 10 n) (low_digits-IsDigits 10 n))
]

pub read_int-signed_digits : (v : ℤ) → IsInt v → read_int (signed_digits v) ≡ v
read_int-signed_digits (pos n) small =
    read_int-digits (digits n) (digits-IsDigits n) ∙ ap pos (digits-number n (omega arith))
read_int-signed_digits (negsuc n) small =
    ap (λ k. negsuc (k - 1)) (digits-number (n + 1) (omega arith)) ∙ ap negsuc (omega arith)

pub low_digits-zero : (k n : ℕ) → n ≡ 0 → low_digits k n ≡ []
unfolding low_digits
low_digits-zero zero n e = refl
low_digits-zero (suc k) n e = let none_left : (n == 0) ≡ true = ground arith in rw none_left refl

pub length-digits : (n : ℕ) → length (digits n) ≤ 10
length-digits n = elim (Bool-cases (n == 0)) [
  | inl none_left ↦ rw none_left (omega arith)
  | inr more ↦ rw more (omega (arith, length-turned (low_digits 10 n), length-low_digits 10 n))
]

pub length-signed_digits : (v : ℤ) → length (signed_digits v) ≤ 11
length-signed_digits (pos n) = omega (arith, length-digits n)
length-signed_digits (negsuc n) = omega (arith, length-digits (n + 1))
