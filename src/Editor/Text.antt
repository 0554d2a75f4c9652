-- ===== src/Editor/Text.antt =====
-- What kernel/editor.cpp edits: a text and a column. The code adds characters at the end of the text,
-- and takes the column for the place in the text where it removes one.
use first_os_build.Prelude.{
  ℕ, ◌+◌, ◌-◌, ◌≤◌, ◌&&◌, [], ◌∷◌, ◌++◌, Bytes, leb, ltb, ◌==◌, if◌then◌else◌, length,
  length-append, length-take, length-drop, take, drop, arith,
}

pub record Text : Type 0 where
  pub chars : Bytes
  pub column : ℕ

-- A character at the end; past the last column the column starts again.
unfoldable pub add : ℕ → ℕ → Text → Text
add cols c t = record {
  chars = t.chars ++ (c ∷ []);
  column = if leb cols (t.column + 1) then 0 else t.column + 1;
}

unfoldable pub enter : Text → Text
enter t = record { chars = t.chars ++ (b'\n' ∷ []); column = 0 }

-- The character before the column, counted from the start of the text.
unfoldable pub erase : Text → Text
erase t =
    if ltb 0 t.column
    then record {
      chars = take (t.column - 1) t.chars ++ drop t.column t.chars;
      column = t.column - 1;
    }
    else t

-- The keys that change the text. No character, and a tab, change nothing.
unfoldable pub key : ℕ → ℕ → Text → Text
key cols c t =
    if c == b'\n'
    then enter t
    else if c == 8
    then erase t
    else if leb 32 c && ltb c 127
    then add cols c t
    else t

unfoldable pub keys : ℕ → Bytes → Text → Text
keys cols [] t = t
keys cols (c ∷ cs) t = keys cols cs (key cols c t)

-- The column stands in the text.
abbrev pub IsWithin : Text → Type 0
IsWithin t = t.column ≤ length t.chars

pub key-IsWithin : (cols c : ℕ) (t : Text) → IsWithin t → IsWithin (key cols c t)
unfolding key enter erase add
key-IsWithin cols c t h = ground (
  arith,
  length-append t.chars (c ∷ []),
  length-append t.chars (b'\n' ∷ []),
  length-append (take (t.column - 1) t.chars) (drop t.column t.chars),
  length-take (t.column - 1) t.chars,
  length-drop t.column t.chars,
)

-- A key makes the text longer by one at most.
pub length-key :
    (cols c : ℕ) (t : Text) → IsWithin t → length (key cols c t).chars ≤ length t.chars + 1
unfolding key enter erase add
length-key cols c t h = ground (
  arith,
  length-append t.chars (c ∷ []),
  length-append t.chars (b'\n' ∷ []),
  length-append (take (t.column - 1) t.chars) (drop t.column t.chars),
  length-take (t.column - 1) t.chars,
  length-drop t.column t.chars,
)
