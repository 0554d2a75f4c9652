-- ===== src/Compiler/BytesAt.antt =====
-- kernel/compiler.cpp, kernel/editor.cpp: the bytes from an address on, as a list.
use first_os_build.Prelude.{
  ℕ, zero, suc, ◌+◌, ◌-◌, ◌≤◌, ◌<◌, ◌≡◌, refl, ◌∷◌, ◌++◌, arith, ap, ap₂, ◌∙◌, take, drop, length,
}
use first_os_build.Memory.{Memory}
use first_os_build.Compiler.{bytes_at}

pub bytes_at_ext :
    (m m' : Memory) (n p p' : ℕ)
    → ((i : ℕ) → i < n → m'.byte (p' + i) ≡ m.byte (p + i))
    → bytes_at m' p' n ≡ bytes_at m p n
unfolding bytes_at
bytes_at_ext m m' zero p p' same = refl
bytes_at_ext m m' (suc n) p p' same =
    ap₂ (λ c cs. c ∷ cs) (ground (arith, same 0 (omega arith)))
      (bytes_at_ext m m' n (p + 1) (p' + 1) λ i lt. ground (arith, same (i + 1) (omega arith)))

pub bytes_at-add :
    (m : Memory) (n k p : ℕ) → bytes_at m p (n + k) ≡ bytes_at m p n ++ bytes_at m (p + n) k
unfolding bytes_at
bytes_at-add m zero k p = ap₂ (bytes_at m) (omega arith) (omega arith)
bytes_at-add m (suc n) k p =
    let next : suc n + k ≡ suc (n + k) = omega arith in
    ap (bytes_at m p) next
    ∙ ap (◌∷◌ (m.byte p)) (
        bytes_at-add m n k (p + 1) ∙ ap (λ q. bytes_at m (p + 1) n ++ bytes_at m q k) (omega arith))

pub length-bytes_at : (m : Memory) (n p : ℕ) → length (bytes_at m p n) ≡ n
unfolding bytes_at
length-bytes_at m zero p = refl
length-bytes_at m (suc n) p = ap suc (length-bytes_at m n (p + 1))

pub take-bytes_at : (m : Memory) (k n p : ℕ) → k ≤ n → take k (bytes_at m p n) ≡ bytes_at m p k
unfolding bytes_at
take-bytes_at m zero n p h = refl
take-bytes_at m (suc k) zero p h = absurd (omega arith)
take-bytes_at m (suc k) (suc n) p h =
    ap (◌∷◌ (m.byte p)) (take-bytes_at m k n (p + 1) (omega arith))

pub drop-bytes_at : (m : Memory) (k n p : ℕ) → drop k (bytes_at m p n) ≡ bytes_at m (p + k) (n - k)
unfolding bytes_at
drop-bytes_at m zero n p = ap₂ (bytes_at m) (omega arith) (omega arith)
drop-bytes_at m (suc k) zero p =
    let none_left : 0 ≡ 0 - suc k = omega arith in ap (bytes_at m (p + suc k)) none_left
drop-bytes_at m (suc k) (suc n) p =
    drop-bytes_at m k n (p + 1) ∙ ap₂ (bytes_at m) (omega arith) (omega arith)
