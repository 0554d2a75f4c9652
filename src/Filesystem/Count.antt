-- ===== src/Filesystem/Count.antt =====
-- kernel/filesystem.cpp: `num_files` is the number of files.
use mathlib.Core.Option
use first_os_build.Prelude.{
  ℕ, ◌+◌, ◌≤◌, ◌≡◌, refl, true, Option, none, some, List, [], ◌∷◌, Bytes, length, arith, inl, inr,
  Bool-cases, is_some, is_zero, guard, ltb, leb, ℤ,
}
use first_os_build.Prelude.Maybe.{
  Ensures, fails, ensures, Ensures-past, Ensures-if, Ensures-bind, ensured,
}
use first_os_build.CString.{strlen, strncpy, copy_bytes}
use first_os_build.Filesystem.{
  File, FileSystem, clear_files, filesystem_init, is_named, find_file, fill_slot, use_slot, created,
  create_file, write_slot, written, write_file,
}
use first_os_build.Filesystem.Listing.{count}

-- The table has 256 slots, and its files are counted.
pub record IsCounted (s : FileSystem) : Type 0 where
  pub slots : length s.files ≡ 256
  pub counted : s.num_files ≡ count s.files

-- A table after a search: as large, with `n` files more.
abbrev Grown : ℕ → List File → Option (List File) → Type 0
Grown n fs none = Unit {0}
Grown n fs (some fs') = (length fs' ≡ length fs) × (count fs' ≡ count fs + n)

count-le-length : (fs : List File) → count fs ≤ length fs
unfolding count
count-le-length [] = omega arith
count-le-length (f ∷ fs) = ground (arith, count-le-length fs)

count-clear_files :
    (fs : List File) → (count (clear_files fs) ≡ 0) × (length (clear_files fs) ≡ length fs)
unfolding count clear_files
count-clear_files [] = (refl, refl)
count-clear_files (f ∷ fs) = ground (arith, count-clear_files fs)

-- One more slot before the table.
Grown-tail :
    (n : ℕ) (f : File) (fs : List File) (m : Option (Option (List File)))
    → Ensures (Grown n fs) m
    → Ensures (Grown n (f ∷ fs)) (Option.map (Option.map (◌∷◌ f)) m)
unfolding count
Grown-tail n f fs _ fails = fails
Grown-tail n f fs _ (ensures {a = none} h) = ensures tt
Grown-tail n f fs _ (ensures {a = some fs'} h) = ensures (ground arith)

fill_slot-used : (f : File) (name : Bytes) → Ensures (λ f'. f'.used ≡ true) (fill_slot f name)
unfolding fill_slot
fill_slot-used f name =
    Ensures-past (strncpy f.name name 31)
      λ name'. Ensures-past (guard (ltb 31 (length name'))) λ a. ensures refl

use_slot-Grown : (fs : List File) (name : Bytes) → Ensures (Grown 1 fs) (use_slot fs name)
unfolding use_slot count
use_slot-Grown [] name = ensures tt
use_slot-Grown (f ∷ fs) name = elim (Bool-cases f.used) [
  | inl used ↦ simp used (Grown-tail 1 f fs (use_slot fs name) (use_slot-Grown fs name))
  | inr unused ↦
      simp unused (Ensures-bind (fill_slot-used f name) λ f' used. ensures (ground arith))
]

write_slot-Grown :
    (fs : List File) (name bytes : Bytes) (size : ℕ)
    → Ensures (Grown 0 fs) (write_slot fs name bytes size)
unfolding write_slot count
write_slot-Grown [] name bytes size = ensures tt
write_slot-Grown (f ∷ fs) name bytes size =
    let rest = Grown-tail 0 f fs _ (write_slot-Grown fs name bytes size) in
    Ensures-past (is_named f name) λ same.
      Ensures-if same
        (Ensures-past (copy_bytes f.bytes bytes size) λ bytes'. ensures (ground arith)) rest

filesystem_init-IsCounted : (s : FileSystem) → length s.files ≡ 256 → IsCounted (filesystem_init s)
unfolding filesystem_init
filesystem_init-IsCounted s h = ground (arith, count-clear_files s.files)

created-IsCounted :
    (s : FileSystem) (o : Option (List File))
    → IsCounted s
    → Grown 1 s.files o
    → IsCounted (created s o).1
unfolding created
created-IsCounted s none c g = c
created-IsCounted s (some fs) c g = ground (arith, count-le-length fs)

create_file-IsCounted :
    (name : Option Bytes) (s : FileSystem)
    → IsCounted s
    → Ensures (λ (result, s'). IsCounted s') (create_file name s)
unfolding create_file
create_file-IsCounted none s c = ensures c
create_file-IsCounted (some name) s c = Ensures-past (strlen name) λ len.
    Ensures-if (leb 32 len) (ensures c) (
      Ensures-past (find_file s.files name) λ old. Ensures-if (is_some old) (ensures c) (
        Ensures-bind (use_slot-Grown s.files name)
          λ files grown. ensures (created-IsCounted s files c grown)))

written-IsCounted :
    (s : FileSystem) (o : Option (List File))
    → IsCounted s
    → Grown 0 s.files o
    → IsCounted (written s o).1
unfolding written
written-IsCounted s none c g = c
written-IsCounted s (some fs) c g = ground arith

write_file-IsCounted :
    (name bytes : Option Bytes) (size : ℕ) (s : FileSystem)
    → IsCounted s
    → Ensures (λ (result, s'). IsCounted s') (write_file name bytes size s)
unfolding write_file
write_file-IsCounted none bytes size s c = ensures c
write_file-IsCounted (some name) none size s c = ensures c
write_file-IsCounted (some name) (some bytes) size s c = Ensures-if (ltb 4096 size) (ensures c) (
    Ensures-bind (write_slot-Grown s.files name bytes size) λ old grown.
      Ensures-if (is_some old) (ensures (written-IsCounted s old c grown)) (
        Ensures-bind (create_file-IsCounted (some name) s c) λ (result, s') c'.
          Ensures-if (is_zero result)
            (Ensures-bind (write_slot-Grown s'.files name bytes size)
              λ files grown'. ensures (written-IsCounted s' files c' grown'))
            (ensures c')))

-- What the table is since its start: files are created and written.
pub data Reach : FileSystem → Type 0 where
  started : (s : FileSystem) → length s.files ≡ 256 → Reach (filesystem_init s)
  creates :
      {s : FileSystem} {s' : FileSystem} (name : Option Bytes) {result : ℤ}
      → Reach s
      → create_file name s ≡ some (result, s')
      → Reach s'
  writes :
      {s : FileSystem} {s' : FileSystem} (name bytes : Option Bytes) (size : ℕ) {result : ℤ}
      → Reach s
      → write_file name bytes size s ≡ some (result, s')
      → Reach s'

-- Since `filesystem_init`, whatever calls of `create_file` and `write_file` there were, failed ones
-- included, `num_files` is the number of files in the table, which keeps its 256 slots.
pub Reach-IsCounted : {s : FileSystem} → Reach s → IsCounted s
Reach-IsCounted (started s h) = filesystem_init-IsCounted s h
Reach-IsCounted (creates {s} name r e) =
    ensured (create_file-IsCounted name s (Reach-IsCounted r)) e
Reach-IsCounted (writes {s} name bytes size r e) =
    ensured (write_file-IsCounted name bytes size s (Reach-IsCounted r)) e
