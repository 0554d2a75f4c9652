-- ===== src/Terminal/View.antt =====
-- What the terminal of kernel/kernel.cpp promises: a page of 25 lines of 80 cells and a cursor.
use first_os_build.Prelude.{ℕ, ◌+◌, ◌*◌, [], ◌∷◌, Bytes, ltb, ◌==◌, if◌then◌else◌}
use first_os_build.Terminal.{Screen, make_vgaentry}

pub record View : Type 0 where
  pub row : ℕ
  pub column : ℕ
  pub cells : Screen

-- The cell of the cursor, counted along the lines.
abbrev pub offset : View → ℕ
offset v = v.row * 80 + v.column

-- Each line moves up by one; the last one is left blank.
unfoldable pub line_up : ℕ → Screen → Screen
line_up blank f i = if ltb i 1920 then f (i + 80) else if ltb i 2000 then blank else f i

unfoldable pub new_line : ℕ → View → View
new_line color v =
    if v.row == 24
    then record v { column = 0; cells = line_up (make_vgaentry b' ' color) v.cells }
    else record v { row = v.row + 1; column = 0 }

unfoldable pub put : ℕ → ℕ → View → View
put color c v =
    let v' = record v { cells = λ i. if i == offset v then make_vgaentry c color else v.cells i } in
    if v.column == 79 then new_line color v' else record v' { column = v.column + 1 }

-- One character: a newline, or a character at the cursor.
unfoldable pub type_char : ℕ → ℕ → View → View
type_char color c v = if c == b'\n' then new_line color v else put color c v

unfoldable pub type_text : ℕ → Bytes → View → View
type_text color [] v = v
type_text color (c ∷ cs) v = type_text color cs (type_char color c v)
