-- ===== src/Terminal/Loops.antt =====
-- kernel/kernel.cpp: what the loops over video memory do, cell by cell.
use first_os_build.Prelude.{
  ℕ, zero, suc, ◌+◌, ◌-◌, ◌*◌, ◌≤◌, ◌<◌, ◌≡◌, ap, fun_ext, some, arith, ltb, leb, ◌&&◌,
  if◌then◌else◌, ◌∙◌, lt→ltb,
}
use first_os_build.Terminal.{
  Screen, KernelState, make_vgaentry, update, write_cell, read_cell, for_range, clear_cell,
  terminal_clear, scroll_cell, scroll,
}

-- `v` in the `n` cells from `a` on
abbrev pub fill : Screen → ℕ → ℕ → ℕ → Screen
fill f a n v i = if leb a i && ltb i (a + n) then v else f i

-- in the `n` cells from `a` on, what stands a line below
abbrev pub shift : Screen → ℕ → ℕ → Screen
shift f a n i = if leb a i && ltb i (a + n) then f (i + 80) else f i

abbrev pub blank : KernelState → ℕ
blank s = make_vgaentry b' ' s.terminal_color

abbrev pub show : KernelState → Screen → KernelState
show s f = record s { terminal_buffer = some f }

pub write_cell-show :
    (i v : ℕ) (s : KernelState) (f : Screen)
    → i < 2000
    → write_cell i v (show s f) ≡ some (show s (update f i v))
unfolding write_cell
write_cell-show i v s f h = rw (lt→ltb i 2000 h)

read_cell-show :
    (i : ℕ) (s : KernelState) (f : Screen) → i < 2000 → read_cell i (show s f) ≡ some (f i)
unfolding read_cell
read_cell-show i s f h = rw (lt→ltb i 2000 h)

clear_row :
    (n x y : ℕ) (s : KernelState) (f : Screen)
    → y < 25
    → x + n ≤ 80
    → for_range n x (clear_cell y) (show s f) ≡ some (show s (fill f (y * 80 + x) n (blank s)))
unfolding for_range clear_cell
clear_row zero x y s f hy hx = ap (λ g. some (show s g)) (fun_ext λ i. ground arith)
clear_row (suc n) x y s f hy hx = rw (write_cell-show (y * 80 + x) (blank s) s f (omega arith)) (
    clear_row n (x + 1) y s (update f (y * 80 + x) (blank s)) hy (omega arith)
    ∙ ap (λ g. some (show s g)) (fun_ext λ i. ground arith))

clear_rows :
    (n y : ℕ) (s : KernelState) (f : Screen)
    → y + n ≤ 25
    → for_range n y (λ y. for_range 80 0 (clear_cell y)) (show s f)
      ≡ some (show s (fill f (y * 80) (n * 80) (blank s)))
unfolding for_range
clear_rows zero y s f h = ap (λ g. some (show s g)) (fun_ext λ i. ground arith)
clear_rows (suc n) y s f h = rw (clear_row 80 0 y s f (omega arith) (omega arith)) (
    clear_rows n (y + 1) s (fill f (y * 80 + 0) 80 (blank s)) (omega arith)
    ∙ ap (λ g. some (show s g)) (fun_ext λ i. ground arith))

-- `terminal_clear` blanks the 2000 cells.
pub clear-show :
    (s : KernelState) (f : Screen)
    → terminal_clear (show s f) ≡ some (show s (fill f 0 2000 (blank s)))
unfolding terminal_clear
clear-show s f = clear_rows 25 0 s f (omega arith)

scroll_row :
    (n x y : ℕ) (s : KernelState) (f : Screen)
    → y < 24
    → x + n ≤ 80
    → for_range n x (scroll_cell (suc y)) (show s f) ≡ some (show s (shift f (y * 80 + x) n))
unfolding for_range scroll_cell
scroll_row zero x y s f hy hx = ap (λ g. some (show s g)) (fun_ext λ i. ground arith)
scroll_row (suc n) x y s f hy hx =
    let from : suc y * 80 + x ≡ y * 80 + x + 80 = omega arith in
    let to : (suc y - 1) * 80 + x ≡ y * 80 + x = omega arith in
    rw
      (
        from,
        to,
        read_cell-show (y * 80 + x + 80) s f (omega arith),
        write_cell-show (y * 80 + x) (f (y * 80 + x + 80)) s f (omega arith),
      )
      (scroll_row n (x + 1) y s (update f (y * 80 + x) (f (y * 80 + x + 80))) hy (omega arith)
        ∙ ap (λ g. some (show s g)) (fun_ext λ i. ground arith))

scroll_rows :
    (n y : ℕ) (s : KernelState) (f : Screen)
    → y + n ≤ 24
    → for_range n (suc y) (λ y. for_range 80 0 (scroll_cell y)) (show s f)
      ≡ some (show s (shift f (y * 80) (n * 80)))
unfolding for_range
scroll_rows zero y s f h = ap (λ g. some (show s g)) (fun_ext λ i. ground arith)
scroll_rows (suc n) y s f h =
    let next : suc y + 1 ≡ suc (suc y) = omega arith in
    rw (scroll_row 80 0 y s f (omega arith) (omega arith), next)
      (scroll_rows n (suc y) s (shift f (y * 80 + 0) 80) (omega arith)
        ∙ ap (λ g. some (show s g)) (fun_ext λ i. ground arith))

-- The screen a line up, with a blank line at the bottom.
abbrev pub scrolled : Screen → ℕ → Screen
scrolled f v = fill (shift f 0 1920) 1920 80 v

pub scroll-show :
    (s : KernelState) (f : Screen)
    → s.terminal_row ≡ 25
    → scroll (show s f) ≡ some (show (record s { terminal_row = 24 }) (scrolled f (blank s)))
unfolding scroll
scroll-show s f h =
    let up : s.terminal_row - 1 ≡ 24 = omega arith in
    rw (scroll_rows 24 0 s f (omega arith), up)
      (clear_row 80 0 24 (record s { terminal_row = 24 }) (shift f 0 1920) (omega arith)
        (omega arith))
