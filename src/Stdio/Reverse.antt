-- ===== src/Stdio/Reverse.antt =====
-- kernel/stdio.cpp: `reverse` gives the bytes in the opposite order.
use first_os_build.Prelude.{
  ℕ, zero, suc, ◌+◌, ◌-◌, ◌≤◌, ◌<◌, ◌≡◌, ◌≢◌, refl, some, [], ◌∷◌, ◌++◌, Bytes, ltb, ◌==◌,
  if◌then◌else◌, length, length-append, get_elem?, set, length-set, get_elem?-set_self,
  get_elem?-set_ne, arith, Returns, returns, Bool-cases, inl, inr, ap, ap₂, sym, ◌∙◌, append_assoc,
}
use mathlib.Core.Option.{some-injective}
use first_os_build.Prelude.Maybe
use first_os_build.Stdio.{reverse_loop, reverse, rev_append}

get_elem?-some : (xs : Bytes) (i : ℕ) → i < length xs → (v : ℕ) × (get_elem? xs i ≡ some v)
get_elem?-some [] i h = absurd (omega arith)
get_elem?-some (x ∷ xs) zero h = (x, refl)
get_elem?-some (x ∷ xs) (suc i) h = get_elem?-some xs i (omega arith)

-- The bytes from `start` to `end` in the opposite order.
record Turned (start end : ℕ) (xs ys : Bytes) : Type 0 where
  size : length ys ≡ length xs
  mirrored : (k : ℕ) → start ≤ k → k ≤ end → get_elem? ys k ≡ get_elem? xs (start + end - k)
  before : (k : ℕ) → k < start → get_elem? ys k ≡ get_elem? xs k
  after : (k : ℕ) → end < k → get_elem? ys k ≡ get_elem? xs k

get_elem?-swap :
    (xs : Bytes) (i j u v k : ℕ)
    → i < length xs
    → j < length xs
    → i ≢ j
    → get_elem? (set (set xs i v) j u) k
      ≡ (if k == j then some u else if k == i then some v else get_elem? xs k)
get_elem?-swap xs i j u v k hi hj ne = elim (Bool-cases (k == j)) [
  | inl last ↦
      let at : k ≡ j = ground arith in
      rw last (
        ap (get_elem? (set (set xs i v) j u)) at
        ∙ get_elem?-set_self (set xs i v) j u (omega (arith, length-set xs i v)))
  | inr other ↦ rw other (
      get_elem?-set_ne (set xs i v) {i = j} {j = k} u (ground arith) ∙ elim (Bool-cases (k == i)) [
        | inl first ↦
            let at : k ≡ i = ground arith in
            rw first (ap (get_elem? (set xs i v)) at ∙ get_elem?-set_self xs i v hi)
        | inr inside ↦ rw inside (get_elem?-set_ne xs {i = i} {j = k} v (ground arith))
      ])
]

-- Two bytes swapped, and what is between them turned.
swapped_Turned :
    (xs ys : Bytes) (start end u v : ℕ)
    → start < end
    → end < length xs
    → get_elem? xs start ≡ some u
    → get_elem? xs end ≡ some v
    → Turned (start + 1) (end - 1) (set (set xs start v) end u) ys
    → Turned start end xs ys
swapped_Turned xs ys start end u v lt he eu ev t =
    let swap : (k : ℕ) → _ =
      λ k. get_elem?-swap xs start end u v k (omega arith) he (omega arith) in
    record {
      size = t.size ∙ length-set (set xs start v) end u ∙ length-set xs start v;
      mirrored = λ k lo hi. elim (Bool-cases (k == start)) [
        | inl first ↦
            let at : end ≡ start + end - k = ground arith in
            t.before k (ground arith) ∙ swap k ∙ ground arith ∙ sym ev ∙ ap (get_elem? xs) at
        | inr other ↦ elim (Bool-cases (k == end)) [
          | inl last ↦
              let at : start ≡ start + end - k = ground arith in
              t.after k (ground arith) ∙ swap k ∙ ground arith ∙ sym eu ∙ ap (get_elem? xs) at
          | inr inside ↦
              let at : start + 1 + (end - 1) - k ≡ start + end - k = omega arith in
              t.mirrored k (ground arith) (ground arith)
              ∙ ap (get_elem? (set (set xs start v) end u)) at
              ∙ swap (start + end - k)
              ∙ ground arith
        ]
      ];
      before = λ k b. t.before k (omega arith) ∙ swap k ∙ ground arith;
      after = λ k a. t.after k (omega arith) ∙ swap k ∙ ground arith;
    }

reverse_loop-Turned :
    (fuel start end : ℕ) (xs : Bytes)
    → end < length xs
    → end + 2 ≤ start + fuel
    → start ≤ end + 1
    → Returns (Turned start end xs) (reverse_loop fuel start end xs)
unfolding reverse_loop
reverse_loop-Turned zero start end xs he enough le = absurd (omega arith)
reverse_loop-Turned (suc fuel) start end xs he enough le = elim (Bool-cases (ltb start end)) [
  | inr done ↦ rw done (
      returns (record {
        size = refl;
        mirrored = λ k lo hi. ap (get_elem? xs) (ground arith);
        before = λ k b. refl;
        after = λ k a. refl;
      }))
  | inl more ↦
      let (u, eu) = get_elem?-some xs start (ground arith) in
      let (v, ev) = get_elem?-some xs end he in
      rw (more, eu, ev)
        (Maybe.mono
          (reverse_loop-Turned fuel (start + 1) (end - 1) (set (set xs start v) end u)
            (omega (arith, length-set (set xs start v) end u, length-set xs start v)) (ground arith)
            (ground arith))
          λ ys t. swapped_Turned xs ys start end u v (ground arith) he eu ev t)
]

-- The bytes in the opposite order, as a list.
abbrev pub turned : Bytes → Bytes
turned xs = rev_append xs []

pub rev_append-append : (xs ys : Bytes) → rev_append xs ys ≡ turned xs ++ ys
unfolding rev_append
rev_append-append [] ys = refl
rev_append-append (x ∷ xs) ys =
    rev_append-append xs (x ∷ ys)
    ∙ sym (append_assoc (turned xs) (x ∷ []) ys)
    ∙ ap (λ zs. zs ++ ys) (sym (rev_append-append xs (x ∷ [])))

pub turned-cons : (x : ℕ) (xs : Bytes) → turned (x ∷ xs) ≡ turned xs ++ x ∷ []
unfolding rev_append
turned-cons x xs = rev_append-append xs (x ∷ [])

pub length-turned : (xs : Bytes) → length (turned xs) ≡ length xs
unfolding rev_append
length-turned [] = refl
length-turned (x ∷ xs) =
    ap (λ (ys : Bytes). length ys) (turned-cons x xs)
    ∙ length-append (turned xs) (x ∷ [])
    ∙ omega (arith, length-turned xs)

get_elem?-append_left :
    (xs ys : Bytes) (k : ℕ) → k < length xs → get_elem? (xs ++ ys) k ≡ get_elem? xs k
get_elem?-append_left [] ys k h = absurd (omega arith)
get_elem?-append_left (x ∷ xs) ys zero h = refl
get_elem?-append_left (x ∷ xs) ys (suc k) h = get_elem?-append_left xs ys k (omega arith)

get_elem?-append_last :
    (xs : Bytes) (y : ℕ) (k : ℕ) → k ≡ length xs → get_elem? (xs ++ y ∷ []) k ≡ some y
get_elem?-append_last [] y k e = ap (get_elem? (y ∷ [])) e
get_elem?-append_last (x ∷ xs) y zero e = absurd (omega arith)
get_elem?-append_last (x ∷ xs) y (suc k) e = get_elem?-append_last xs y k (omega arith)

get_elem?-turned :
    (xs : Bytes) (k : ℕ)
    → k < length xs
    → get_elem? (turned xs) k ≡ get_elem? xs (length xs - 1 - k)
get_elem?-turned [] k h = absurd (omega arith)
get_elem?-turned (x ∷ xs) k h =
    ap (λ ys. get_elem? ys k) (turned-cons x xs) ∙ elim (Bool-cases (ltb k (length xs))) [
      | inl inside ↦
          let at : suc (length xs - 1 - k) ≡ suc (length xs) - 1 - k = ground arith in
          get_elem?-append_left (turned xs) (x ∷ []) k (ground (arith, length-turned xs))
          ∙ get_elem?-turned xs k (ground arith)
          ∙ ap (get_elem? (x ∷ xs)) at
      | inr last ↦
          let at : 0 ≡ suc (length xs) - 1 - k = ground arith in
          get_elem?-append_last (turned xs) x k (ground (arith, length-turned xs))
          ∙ ap (get_elem? (x ∷ xs)) at
    ]

-- Lists of one length with the same bytes are the same.
same_bytes :
    (xs ys : Bytes)
    → length xs ≡ length ys
    → ((k : ℕ) → k < length xs → get_elem? xs k ≡ get_elem? ys k)
    → xs ≡ ys
same_bytes [] [] size same = refl
same_bytes [] (y ∷ ys) size same = absurd (omega arith)
same_bytes (x ∷ xs) [] size same = absurd (omega arith)
same_bytes (x ∷ xs) (y ∷ ys) size same =
    ap₂ ◌∷◌ (some-injective _ _ (same 0 (omega arith)))
      (same_bytes xs ys (omega arith) λ k lt. same (suc k) (omega arith))

Turned-eq : (xs ys : Bytes) → 0 < length xs → Turned 0 (length xs - 1) xs ys → ys ≡ turned xs
Turned-eq xs ys some_xs t = same_bytes ys (turned xs) (t.size ∙ sym (length-turned xs)) λ k lt.
    let at : 0 + (length xs - 1) - k ≡ length xs - 1 - k = omega arith in
    t.mirrored k (omega arith) (omega (arith, t.size))
    ∙ ap (get_elem? xs) at
    ∙ sym (get_elem?-turned xs k (omega (arith, t.size)))

reverse-nil : (fuel : ℕ) → reverse (suc fuel) [] 0 ≡ some []
unfolding reverse reverse_loop
reverse-nil fuel = refl

-- On fuel for a round for each byte and one more, `reverse` of a whole text always ends, with its bytes in
-- the opposite order.
pub reverse-turned :
    (fuel : ℕ) (xs : Bytes) → length xs < fuel → reverse fuel xs (length xs) ≡ some (turned xs)
unfolding reverse rev_append
reverse-turned zero xs enough = absurd (omega arith)
reverse-turned (suc fuel) [] enough = reverse-nil fuel
reverse-turned (suc fuel) (x ∷ xs) enough =
    let (ys, run, t) = Maybe.to_sigma (
      reverse_loop-Turned (suc fuel) 0 (length (x ∷ xs) - 1) (x ∷ xs) (omega arith) (omega arith)
        (omega arith)) in
    run ∙ ap some (Turned-eq (x ∷ xs) ys (omega arith) t)
