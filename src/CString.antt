-- ===== src/CString.antt =====
-- kernel/string.cpp. A `char*` is the bytes from the pointer to the end of its object; `none` is an
-- access past that end. `memmove` takes two addresses of one memory, since its areas may overlap.
mod Tests
pub mod Compare
pub mod Copy
pub mod Move
use mathlib.Core.Option
use first_os_build.Prelude.{
  ℕ, zero, suc, ◌+◌, ◌-◌, ◌%◌, ◌^◌, Bool, true, false, Option, none, some, List, [], ◌∷◌, Bytes,
  ltb, ◌==◌, if◌then◌else◌, ◌>>=◌, ℤ, pos, sub_ℕ,
}
use first_os_build.Memory.{Ptr, Memory, null, malloc, memcpy}

unfoldable pub strlen : Bytes → Option ℕ
strlen [] = none
strlen (c ∷ s) = let rest = Option.map suc (strlen s) in if c == 0 then some 0 else rest

-- `while (n--) *p++ = (unsigned char)c;`
unfoldable pub memset : Bytes → ℕ → ℕ → Option Bytes
memset s c zero = some s
memset [] c (suc n) = none
memset (x ∷ s) c (suc n) = Option.map (◌∷◌ (c % 256)) (memset s c n)

-- `while (n--) *d++ = *s++;` between two objects (kernel/memory.cpp)
unfoldable pub copy_bytes : Bytes → Bytes → ℕ → Option Bytes
copy_bytes d s zero = some d
copy_bytes [] s (suc n) = none
copy_bytes (x ∷ d) [] (suc n) = none
copy_bytes (x ∷ d) (c ∷ s) (suc n) = Option.map (◌∷◌ c) (copy_bytes d s n)

abbrev pub store_byte : (Ptr → ℕ) → Ptr → ℕ → Ptr → ℕ
store_byte f p v a = if a == p then v else f a

-- `while (n--) *d++ = *s++;`
unfoldable pub move_up : ℕ → Ptr → Ptr → (Ptr → ℕ) → Ptr → ℕ
move_up zero d s f = f
move_up (suc n) d s f = move_up n (d + 1) (s + 1) (store_byte f d (f s))

-- `while (n--) *--d = *--s;`, where `d` and `s` stand `n` bytes behind the arguments
unfoldable pub move_down : ℕ → Ptr → Ptr → (Ptr → ℕ) → Ptr → ℕ
move_down zero d s f = f
move_down (suc n) d s f = move_down n d s (store_byte f (d + n) (f (s + n)))

unfoldable pub memmove : Ptr → Ptr → ℕ → (Ptr → ℕ) → Ptr → ℕ
memmove d s n f = if ltb d s then move_up n d s f else move_down n d s f

-- The difference of the first bytes that differ.
unfoldable pub memcmp : Bytes → Bytes → ℕ → Option ℤ
memcmp a b zero = some (pos 0)
memcmp [] b (suc n) = none
memcmp (x ∷ a) [] (suc n) = none
memcmp (x ∷ a) (y ∷ b) (suc n) =
    let rest = memcmp a b n in if x == y then rest else some (sub_ℕ x y)

-- `while ((*d++ = *src++));`
unfoldable pub strcpy : Bytes → Bytes → Option Bytes
strcpy [] s = none
strcpy (x ∷ d) [] = none
strcpy (x ∷ d) (c ∷ s) =
    let rest = Option.map (◌∷◌ c) (strcpy d s) in if c == 0 then some (0 ∷ d) else rest

-- `while (n--) *d++ = '\0';`
unfoldable pub zero_fill : Bytes → ℕ → Option Bytes
zero_fill d zero = some d
zero_fill [] (suc n) = none
zero_fill (x ∷ d) (suc n) = Option.map (◌∷◌ 0) (zero_fill d n)

-- `n` is unsigned: where the first loop ends by its count, `n--` leaves 2 ^ 32 - 1 for the second.
unfoldable pub strncpy : Bytes → Bytes → ℕ → Option Bytes
strncpy d s zero = zero_fill d (2 ^ 32 - 1)
strncpy [] s (suc n) = none
strncpy (x ∷ d) [] (suc n) = none
strncpy (x ∷ d) (c ∷ s) (suc n) =
    let rest = Option.map (◌∷◌ c) (strncpy d s n) in
    if c == 0 then Option.map (◌∷◌ 0) (zero_fill d n) else rest

unfoldable pub strcmp : Bytes → Bytes → Option ℤ
strcmp [] b = none
strcmp (x ∷ a) [] = none
strcmp (x ∷ a) (y ∷ b) =
    let rest = strcmp a b in
    if x == 0 then some (sub_ℕ x y) else if x == y then rest else some (sub_ℕ x y)

-- The offset of the first `c`; the inner `none` is the null pointer.
unfoldable pub strchr : Bytes → ℕ → Option (Option ℕ)
strchr [] c = none
strchr (x ∷ s) c =
    let rest = Option.map (Option.map suc) (strchr s c) in
    if x == c % 256 then some (some 0) else if x == 0 then some none else rest

-- `strlen` at an address, with fuel for its loop.
unfoldable pub strlen_at : ℕ → Ptr → Memory → Option ℕ
strlen_at zero p m = none
strlen_at (suc fuel) p m =
    let rest = Option.map suc (strlen_at fuel (p + 1) m) in if m.byte p == 0 then some 0 else rest

unfoldable pub strdup : ℕ → Ptr → Memory → Option (Ptr × Memory)
strdup fuel s m = do
  n ← strlen_at fuel s m
  let len = (n + 1) % 2 ^ 32
  (new_str, m) ← malloc fuel len m
  some (new_str, if new_str == null then m else memcpy new_str s len m)
