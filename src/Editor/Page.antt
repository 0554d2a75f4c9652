-- ===== src/Editor/Page.antt =====
-- What kernel/editor.cpp writes on the screen for a text.
use first_os_build.Prelude.{
  ℕ, zero, suc, ◌+◌, Bool, [], ◌∷◌, ◌++◌, Bytes, codes, ◌==◌, if◌then◌else◌, length, take, drop,
  replicate,
}
use first_os_build.Terminal.{make_vgaentry}
use first_os_build.Terminal.Loops.{fill}
use first_os_build.Terminal.View.{View}

-- The text up to its first newline.
unfoldable pub line : Bytes → Bytes
line [] = []
line (c ∷ cs) = if c == b'\n' then [] else c ∷ line cs

-- The first lines, as many as there are rows, each cut at the width of the screen.
unfoldable pub shown : ℕ → ℕ → Bytes → Bytes
shown zero cols cs = []
shown (suc rows) cols [] = []
shown (suc rows) cols (c ∷ cs) =
    take cols (line (c ∷ cs))
    ++ (b'\r' ∷ b'\n' ∷ shown rows cols (drop (length (line (c ∷ cs)) + 1) (c ∷ cs)))

abbrev pub welcome : Bytes
welcome = b'~' ∷ (replicate 27 b' ' ++ codes "Editor -- version 2.0.0")

abbrev pub status : Bytes
status = codes ".20s - zu bytes zu,zu"

-- The whole screen, for a buffer that is null or holds a text.
unfoldable pub page : Bool → Bytes → Bytes
page is_null cs = (if is_null then welcome else shown 24 80 cs) ++ status

-- The page before anything is written on it: blank, but the cursor where it was.
abbrev pub blanked : ℕ → View → View
blanked color v = record v { cells = fill v.cells 0 2000 (make_vgaentry b' ' color) }
