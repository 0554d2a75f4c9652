-- ===== src/Keyboard/Ring.antt =====
-- kernel/keyboard.cpp: the ring of characters.
use first_os_build.Prelude.{
  false, ◌==◌, get_or-set_self, get_or-set_ne, ◌≢◌, ℕ, zero, suc, ◌+◌, ◌-◌, ◌%◌, ◌≤◌, ◌<◌, ◌≡◌,
  refl, ap, ap₂, [], ◌∷◌, ◌++◌, arith, Bytes, length, get_or, set, length-set,
}
use first_os_build.Keyboard.{Keyboard, add_char, keyboard_getchar}

pub record IsValid (k : Keyboard) : Type 0 where
  pub storage : length k.keyboard_buffer ≡ 256
  pub start_in : k.buffer_start < 256
  pub end_in : k.buffer_end < 256

-- the `n` characters from index `i` on, going round at 256
abbrev pub pending : Bytes → ℕ → ℕ → Bytes
pending buf i zero = []
pending buf i (suc n) = get_or buf i 0 ∷ pending buf ((i + 1) % 256) n

abbrev pub waiting : Keyboard → ℕ
waiting k = (k.buffer_end + 256 - k.buffer_start) % 256

-- What is typed and not yet read, oldest first.
abbrev pub contents : Keyboard → Bytes
contents k = pending k.keyboard_buffer k.buffer_start (waiting k)

pub length-pending : (buf : Bytes) (i n : ℕ) → length (pending buf i n) ≡ n
length-pending buf i zero = refl
length-pending buf i (suc n) = ap suc (length-pending buf ((i + 1) % 256) n)

pub pending-set :
    (buf : Bytes) (c i j n : ℕ)
    → length buf ≡ 256
    → i < 256
    → n < 256
    → j ≡ (i + n) % 256
    → pending (set buf j c) i (suc n) ≡ pending buf i n ++ (c ∷ [])
pending-set buf c i j zero size hi hn e =
    let at : j ≡ i = omega arith in rw (at, get_or-set_self buf i c 0 (omega arith)) refl
pending-set buf c i j (suc n) size hi hn e =
    ap₂ ◌∷◌ (get_or-set_ne buf c 0 (omega arith))
      (pending-set buf c ((i + 1) % 256) j n size (omega arith) (omega arith) (omega arith))

-- 255 characters fill the ring: one place stays empty, to tell a full ring from an empty one.
abbrev pub capacity : ℕ
capacity = 255

module _ {k : Keyboard} (v : IsValid k) where
  waiting-le-capacity : waiting k ≤ capacity
  waiting-le-capacity = omega arith

  pub add_char-IsValid : (c : ℕ) → IsValid (add_char c k)
  unfolding add_char
  add_char-IsValid c = ground (arith, length-set k.keyboard_buffer k.buffer_end c)

  pub add_char-full : (c : ℕ) → waiting k ≡ capacity → add_char c k ≡ k
  unfolding add_char
  add_char-full c h = ground arith

  pub add_char-room :
      (c : ℕ)
      → waiting k < capacity
      → add_char c k ≡ record k {
        keyboard_buffer = set k.keyboard_buffer k.buffer_end c;
        buffer_end = (k.buffer_end + 1) % 256;
      }
  unfolding add_char
  add_char-room c h = ground arith

  pub add_char-contents :
      (c : ℕ) → waiting k < capacity → contents (add_char c k) ≡ contents k ++ (c ∷ [])
  add_char-contents c h =
      let more : ((k.buffer_end + 1) % 256 + 256 - k.buffer_start) % 256 ≡ suc (waiting k) =
        omega arith in
      rw (add_char-room c h) (
        rw more (
          pending-set k.keyboard_buffer c k.buffer_start k.buffer_end (waiting k) (omega arith)
            (omega arith) (omega arith) (omega arith)))

  pub getchar-IsValid : IsValid (keyboard_getchar k).1
  unfolding keyboard_getchar
  getchar-IsValid = ground arith

  pub getchar-empty : waiting k ≡ 0 → keyboard_getchar k ≡ (0, k)
  unfolding keyboard_getchar
  getchar-empty h = ground arith

  pub getchar-contents :
      waiting k ≢ 0 → contents k ≡ (keyboard_getchar k).0 ∷ contents (keyboard_getchar k).1
  unfolding keyboard_getchar
  getchar-contents h =
      let fewer : waiting k ≡ suc ((k.buffer_end + 256 - (k.buffer_start + 1) % 256) % 256) =
        omega arith in
      let more : (k.buffer_start == k.buffer_end) ≡ false = ground arith in rw more (rw fewer refl)
