-- ===== src/Stdio.antt =====
-- kernel/stdio.cpp, and `int_to_string` of kernel/interrupts.cpp. A formatter writes its bytes one behind
-- another from the start of `str`, so its state is the bytes written; `cap` is the size of the object
-- at `str`. `none` is a write past that object, a read past a text's object, an argument of another type than
-- the directive's, or a negation that overflows. Sums of sizes stay below 2 ^ 32.
mod Tests
pub mod Decimal
pub mod Directives
pub mod Itoa
pub mod Plain
pub mod Printed
pub mod Reverse
use mathlib.Core.Option
use first_os_build.Prelude.{
  ℕ, zero, suc, ◌+◌, ◌-◌, ◌*◌, ◌/◌, ◌%◌, ◌^◌, Bool, true, false, ◌||◌, Option, none, some, List, [],
  ◌∷◌, ◌++◌, Bytes, codes, ltb, leb, ◌==◌, if◌then◌else◌, guard, ◌>>=◌, ◌>>◌, length, get_elem?,
  set, ℤ, pos, negsuc,
}
use first_os_build.CString.{strlen}

-- One argument behind `...`. A text is the bytes from its pointer on, or the null pointer.
pub data Arg : Type 0 where
  int : ℤ → Arg
  text : Option Bytes → Arg

-- `str[written++] = c`
unfoldable pub emit : ℕ → Bytes → ℕ → Option Bytes
emit cap out c = if ltb (length out) cap then some (out ++ (c ∷ [])) else none

-- `memcpy(str + written, s, len)`
unfoldable pub emit_bytes : ℕ → Bytes → Bytes → ℕ → Option Bytes
emit_bytes cap out s zero = some out
emit_bytes cap out [] (suc n) = none
emit_bytes cap out (c ∷ s) (suc n) = emit cap out c >>= λ out'. emit_bytes cap out' s n

-- `-value` of a 32-bit int, as a natural number: the least int has no negative.
abbrev pub magnitude : ℤ → Option ℕ
magnitude (pos n) = some n
magnitude (negsuc n) = if ltb (n + 1) (2 ^ 31) then some (n + 1) else none

abbrev pub is_negative : ℤ → Bool
is_negative (pos n) = false
is_negative (negsuc n) = true

-- `num[len++] = '0' + (value % 10); value /= 10;` while there is a value and room in `num`
unfoldable pub num_digits : ℕ → ℕ → Bytes
num_digits zero v = []
num_digits (suc room) v =
    let more = num_digits room (v / 10) in (b'0' + v % 10) ∷ (if v / 10 == 0 then [] else more)

-- `while (len > 0 && written < size - 1) str[written++] = num[--len];` over `num` from its end
unfoldable pub emit_num : ℕ → ℕ → Bytes → Bytes → Option Bytes
emit_num cap size out [] = some out
emit_num cap size out (c ∷ num) =
    let on = emit cap out c >>= λ out'. emit_num cap size out' num in
    if ltb (length out) (size - 1) then on else some out

unfoldable pub rev_append : Bytes → Bytes → Bytes
rev_append [] ys = ys
rev_append (x ∷ xs) ys = rev_append xs (x ∷ ys)

-- the case 's'
unfoldable pub emit_text : ℕ → ℕ → Bytes → Option Bytes → Option Bytes
emit_text cap size out s = do
  let s' = Option.get_or s (codes "(null)" ++ (0 ∷ []))
  len ← strlen s'
  emit_bytes cap out s' (if leb (size - 1) (length out + len) then size - length out - 1 else len)

-- the case 'd'
unfoldable pub emit_int : ℕ → ℕ → Bytes → ℤ → Option Bytes
emit_int cap size out v = do
  out' ← if is_negative v then emit cap out b'-' else some out
  n ← magnitude v
  emit_num cap size out' (rev_append (num_digits 31 n) [])

-- `(char)` of an int
abbrev pub low_byte : ℤ → ℕ
low_byte (pos n) = n % 256
low_byte (negsuc n) = 255 - n % 256

-- the cases '%' and default of `sprintf`
unfoldable pub literal : ℕ → ℕ → List Arg → Bytes → Option (List Arg × Bytes)
literal cap c args out = do
  out' ← emit cap out b'%'
  out'' ← if c == b'%' then some out' else emit cap out' c
  some (args, out'')

-- One directive: the character behind the '%'. What is left of the arguments comes with the bytes.
unfoldable pub directive : ℕ → ℕ → ℕ → List Arg → Bytes → Option (List Arg × Bytes)
directive cap size c (text s ∷ args) out =
    if c == b's'
    then (emit_text cap size out s >>= λ out'. some (args, out'))
    else if c == b'd'
    then none
    else (emit cap out c >>= λ out'. some (text s ∷ args, out'))
directive cap size c (int v ∷ args) out =
    if c == b's'
    then none
    else if c == b'd'
    then (emit_int cap size out v >>= λ out'. some (args, out'))
    else (emit cap out c >>= λ out'. some (int v ∷ args, out'))
directive cap size c [] out =
    if c == b's'
    then none
    else if c == b'd'
    then none
    else (emit cap out c >>= λ out'. some ([], out'))

-- The loop over the format from `ptr` on.
unfoldable pub format_loop : ℕ → ℕ → Bytes → List Arg → Bytes → Option Bytes
format_loop cap size [] args out = none
format_loop cap size (c ∷ []) args out =
    if c == 0 then some out else if ltb (length out) (size - 1) then none else some out
format_loop cap size (c ∷ d ∷ f) args out =
    let plain = emit cap out c >>= format_loop cap size (d ∷ f) args in
    let special =
      directive cap size d args out >>= λ (args', out'). format_loop cap size f args' out' in
    if c == 0
    then some out
    else if ltb (length out) (size - 1)
    then (if c == b'%' then (if d == 0 then some out else special) else plain)
    else some out

-- The result and the text left in `str`; null pointers are `none` in the arguments.
unfoldable pub vsnprintf : Option ℕ → ℕ → Option Bytes → List Arg → Option (ℤ × Bytes)
vsnprintf none size format args = some (negsuc 0, [])
vsnprintf (some cap) size none args = some (negsuc 0, [])
vsnprintf (some cap) size (some format) args = if size == 0 then some (negsuc 0, []) else do
  out ← format_loop cap size format args []
  guard (ltb (length out) cap)
  some (pos (length out), out)

unfoldable pub snprintf : Option ℕ → ℕ → Option Bytes → List Arg → Option (ℤ × Bytes)
snprintf = vsnprintf

-- `(rem > 9) ? (rem - 10) + 'a' : rem + '0'` for a `rem` of sign `neg`, as a char
unfoldable pub digit_char : Bool → ℕ → ℕ
digit_char neg rem =
    if neg
    then (b'0' + 256 - rem) % 256
    else if ltb 9 rem
    then (rem - 10 + b'a') % 256
    else (rem + b'0') % 256

-- `while (num != 0)` of `itoa`, for a `num` of sign `neg`; `/` and `%` of C keep the sign.
unfoldable pub itoa_loop : ℕ → Bool → ℕ → ℕ → ℕ → Bytes → Option Bytes
itoa_loop zero neg num base cap out = none
itoa_loop (suc fuel) neg num base cap out =
    let round =
      emit cap out (digit_char neg (num % base)) >>= itoa_loop fuel neg (num / base) base cap in
    if num == 0 then some out else round

-- `reverse` from `start` and `end` on, in place. With `length` 0 the `end` of the code is -1 and the
-- loop makes no round, as with 0.
unfoldable pub reverse_loop : ℕ → ℕ → ℕ → Bytes → Option Bytes
reverse_loop zero start end str = none
reverse_loop (suc fuel) start end str =
    let round = (do
      temp ← get_elem? str start
      v ← get_elem? str end
      reverse_loop fuel (start + 1) (end - 1) (set (set str start v) end temp)) in
    if ltb start end then round else some str

unfoldable pub reverse : ℕ → Bytes → ℕ → Option Bytes
reverse fuel str len = reverse_loop fuel 0 (len - 1) str

-- `str[i] = '\0'; reverse(str, i);`
unfoldable pub finish : ℕ → ℕ → Bytes → Option Bytes
finish fuel cap out = guard (ltb (length out) cap) >> reverse fuel out (length out)

unfoldable pub itoa : ℕ → ℤ → ℕ → ℕ → Option Bytes
itoa fuel (pos zero) base cap = do out ← emit cap [] b'0'; guard (ltb (length out) cap); some out
itoa fuel (pos (suc n)) base cap = itoa_loop fuel false (suc n) base cap [] >>= finish fuel cap
itoa fuel (negsuc n) base cap =
    if base == 10
    then (do
      m ← magnitude (negsuc n)
      out ← itoa_loop fuel false m base cap []
      out' ← emit cap out b'-'
      finish fuel cap out')
    else (itoa_loop fuel true (n + 1) base cap [] >>= finish fuel cap)

-- One directive of `sprintf`; `itoa` writes into `num_buffer`, of 32 bytes, and needs 32 rounds at most.
unfoldable pub sprintf_directive : ℕ → ℕ → List Arg → Bytes → Option (List Arg × Bytes)
sprintf_directive cap c (int v ∷ args) out =
    if c == b'd' || c == b'i'
    then (do num ← itoa 32 v 10 32; out' ← emit_bytes cap out num (length num); some (args, out'))
    else if c == b'c'
    then (emit cap out (low_byte v) >>= λ out'. some (args, out'))
    else if c == b's'
    then none
    else literal cap c (int v ∷ args) out
sprintf_directive cap c (text s ∷ args) out =
    if c == b's'
    then (do s' ← s; len ← strlen s'; out' ← emit_bytes cap out s' len; some (args, out'))
    else if c == b'd' || (c == b'i' || c == b'c')
    then none
    else literal cap c (text s ∷ args) out
sprintf_directive cap c [] out =
    if c == b'd' || (c == b'i' || (c == b'c' || c == b's')) then none else literal cap c [] out

-- `sprintf` has no bound of its own: `cap` is what the object at `str` holds.
unfoldable pub sprintf_loop : ℕ → Bytes → List Arg → Bytes → Option Bytes
sprintf_loop cap [] args out = none
sprintf_loop cap (c ∷ []) args out = if c == 0 then some out else none
sprintf_loop cap (c ∷ d ∷ f) args out =
    let plain = emit cap out c >>= sprintf_loop cap (d ∷ f) args in
    let special =
      sprintf_directive cap d args out >>= λ (args', out'). sprintf_loop cap f args' out' in
    if c == 0 then some out else if c == b'%' then special else plain

unfoldable pub sprintf : ℕ → Bytes → List Arg → Option (ℤ × Bytes)
sprintf cap format args = do
  out ← sprintf_loop cap format args []
  guard (ltb (length out) cap)
  some (pos (length out), out)
