-- ===== src/Terminal/Keeps.antt =====
-- kernel/kernel.cpp: writing on the screen leaves the two counts of memory in `kernel_state`.
use first_os_build.Prelude.{
  ℕ, zero, suc, ◌+◌, ◌≡◌, Option, [], ◌∷◌, Bytes, Bool-cases, inl, inr, ◌%◌, ◌^◌, ◌==◌,
}
use first_os_build.Prelude.Maybe.{
  Ensures, fails, ensures, Ensures-bind, Ensures-past, Ensures-if, guard,
}
use first_os_build.Terminal.{
  vga_width, vga_height, KernelState, write_cell, read_cell, for_range, clear_cell, terminal_clear,
  scroll_cell, scroll, terminal_new_line, terminal_write_char, terminal_write_string,
  terminal_movecursor, outb,
}

module _ (total free : ℕ) where
  abbrev pub HasCounts : KernelState → Type 0
  HasCounts s = (s.total_memory ≡ total) × (s.free_memory ≡ free)

  -- The operation keeps the counts.
  abbrev pub Keeps : (KernelState → Option KernelState) → Type 0
  Keeps op = (s : KernelState) → HasCounts s → Ensures HasCounts (op s)

  write_cell-Keeps : (i x : ℕ) → Keeps (write_cell i x)
  unfolding write_cell
  write_cell-Keeps i x s h =
      Ensures-past s.terminal_buffer λ f. Ensures-past (guard _) λ _. ensures h

  for_range-Keeps :
      (n i : ℕ) (body : ℕ → KernelState → Option KernelState)
      → ((j : ℕ) → Keeps (body j))
      → Keeps (for_range n i body)
  unfolding for_range
  for_range-Keeps zero i body keeps s h = ensures h
  for_range-Keeps (suc n) i body keeps s h =
      Ensures-bind (keeps i s h) (for_range-Keeps n (i + 1) body keeps)

  clear_cell-Keeps : (y x : ℕ) → Keeps (clear_cell y x)
  unfolding clear_cell
  clear_cell-Keeps y x s h = write_cell-Keeps _ _ s h

  pub clear-Keeps : Keeps terminal_clear
  unfolding terminal_clear
  clear-Keeps s h = for_range-Keeps _ _ _ (λ y. for_range-Keeps _ _ _ (clear_cell-Keeps y)) s h

  scroll_cell-Keeps : (y x : ℕ) → Keeps (scroll_cell y x)
  unfolding scroll_cell
  scroll_cell-Keeps y x s h = Ensures-past (read_cell _ s) λ v. write_cell-Keeps _ v s h

  scroll-Keeps : Keeps scroll
  unfolding scroll
  scroll-Keeps s h =
      Ensures-bind (for_range-Keeps _ _ _ (λ y. for_range-Keeps _ _ _ (scroll_cell-Keeps y)) s h)
        λ t kept. for_range-Keeps _ _ _ (clear_cell-Keeps _) _ kept

  new_line-Keeps : Keeps terminal_new_line
  unfolding terminal_new_line terminal_movecursor outb
  new_line-Keeps s h = elim (Bool-cases ((s.terminal_row + 1) % 2 ^ 32 == vga_height)) [
    | inl full ↦ rw full (Ensures-bind (scroll-Keeps _ h) λ t kept. ensures kept)
    | inr more ↦ rw more (ensures h)
  ]

  write_char-Keeps : (c : ℕ) → Keeps (terminal_write_char c)
  unfolding terminal_write_char terminal_movecursor outb
  write_char-Keeps c s h = Ensures-if (c == b'\n') (new_line-Keeps s h) (
      Ensures-bind (write_cell-Keeps _ _ s h) λ t kept.
        elim (Bool-cases ((t.terminal_column + 1) % 2 ^ 32 == vga_width)) [
          | inl full ↦ rw full (Ensures-bind (new_line-Keeps _ kept) λ u kept'. ensures kept')
          | inr more ↦ rw more (ensures kept)
        ])

  pub write_string-Keeps : (cs : Bytes) → Keeps (terminal_write_string cs)
  unfolding terminal_write_string
  write_string-Keeps [] s h = fails
  write_string-Keeps (c ∷ cs) s h =
      Ensures-if (c == 0) (ensures h)
        (Ensures-bind (write_char-Keeps c s h) (write_string-Keeps cs))
