-- ===== src/CString/Copy.antt =====
-- kernel/string.cpp: the functions that write texts.
use first_os_build.Prelude.{
  ℕ, zero, suc, ◌+◌, ◌-◌, ◌%◌, ◌≤◌, ◌<◌, ◌≡◌, refl, false, none, some, [], ◌∷◌, ◌++◌, Bytes, ◌==◌,
  arith, length, take, drop, replicate,
}
use first_os_build.CString.{strcpy, strncpy, zero_fill, copy_bytes, memset}
use first_os_build.CString.Compare.{IsText}

pub zero_fill-replicate :
    (n : ℕ) (d : Bytes) → n ≤ length d → zero_fill d n ≡ some (replicate n 0 ++ drop n d)
unfolding zero_fill
zero_fill-replicate zero d h = refl
zero_fill-replicate (suc n) [] h = absurd (omega arith)
zero_fill-replicate (suc n) (x ∷ d) h = rw (zero_fill-replicate n d (omega arith))

pub zero_fill-overrun : (d : Bytes) (n : ℕ) → length d < n → zero_fill d n ≡ none
unfolding zero_fill
zero_fill-overrun d zero h = absurd (omega arith)
zero_fill-overrun [] (suc n) h = refl
zero_fill-overrun (x ∷ d) (suc n) h = rw (zero_fill-overrun d n (omega arith))

-- A text shorter than `n`, copied into an object of at least `n` bytes, is filled up with zeros to
-- `n` bytes, and the rest of the object stays.
pub strncpy-short :
    (s rest d : Bytes) (n : ℕ)
    → IsText s
    → length s < n
    → n ≤ length d
    → strncpy d (s ++ 0 ∷ rest) n ≡ some (s ++ replicate (n - length s) 0 ++ drop n d)
unfolding strncpy
strncpy-short s rest d zero t h room = absurd (omega arith)
strncpy-short s rest [] (suc n) t h room = absurd (omega arith)
strncpy-short [] rest (x ∷ d) (suc n) t h room =
    let all : suc n - 0 ≡ suc n = omega arith in
    rw (all, zero_fill-replicate n d (omega arith)) refl
strncpy-short (c ∷ s) rest (x ∷ d) (suc n) (ne, t) h room =
    let more : (c == 0) ≡ false = ground arith in
    let less : suc n - suc (length s) ≡ n - length s = omega arith in
    rw (more, less, strncpy-short s rest d n t (omega arith) (omega arith)) refl

-- For a text of `n` or more bytes the second loop starts with a count of 2 ^ 32 - 1, and leaves
-- every object of fewer than n + 2 ^ 32 - 1 bytes.
pub strncpy-overrun :
    (n : ℕ) (s rest d : Bytes)
    → IsText s
    → n ≤ length s
    → length d < n + 4294967295
    → strncpy d (s ++ 0 ∷ rest) n ≡ none
unfolding strncpy
strncpy-overrun zero s rest d t h room = zero_fill-overrun d 4294967295 room
strncpy-overrun (suc n) [] rest d t h room = absurd (omega arith)
strncpy-overrun (suc n) (c ∷ s) rest [] (ne, t) h room = refl
strncpy-overrun (suc n) (c ∷ s) rest (x ∷ d) (ne, t) h room =
    let more : (c == 0) ≡ false = ground arith in
    rw (more, strncpy-overrun n s rest d t (omega arith) (omega arith)) refl

-- A text is copied with its terminator into an object with room for both, whose rest stays.
pub strcpy-text :
    (s rest d : Bytes)
    → IsText s
    → length s < length d
    → strcpy d (s ++ 0 ∷ rest) ≡ some (s ++ 0 ∷ drop (suc (length s)) d)
unfolding strcpy
strcpy-text s rest [] t h = absurd (omega arith)
strcpy-text [] rest (x ∷ d) t h = refl
strcpy-text (c ∷ s) rest (x ∷ d) (ne, t) h =
    let more : (c == 0) ≡ false = ground arith in
    rw (more, strcpy-text s rest d t (omega arith)) refl

pub copy_bytes-take :
    (n : ℕ) (s d : Bytes)
    → n ≤ length s
    → n ≤ length d
    → copy_bytes d s n ≡ some (take n s ++ drop n d)
unfolding copy_bytes
copy_bytes-take zero s d hs hd = refl
copy_bytes-take (suc n) [] d hs hd = absurd (omega arith)
copy_bytes-take (suc n) (c ∷ s) [] hs hd = absurd (omega arith)
copy_bytes-take (suc n) (c ∷ s) (x ∷ d) hs hd =
    rw (copy_bytes-take n s d (omega arith) (omega arith))

pub memset-replicate :
    (n c : ℕ) (s : Bytes) → n ≤ length s → memset s c n ≡ some (replicate n (c % 256) ++ drop n s)
unfolding memset
memset-replicate zero c s h = refl
memset-replicate (suc n) c [] h = absurd (omega arith)
memset-replicate (suc n) c (x ∷ s) h = rw (memset-replicate n c s (omega arith))
