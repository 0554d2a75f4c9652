-- ===== src/Filesystem/Tests.antt =====
-- The table of files at concrete inputs.
use first_os_build.Prelude.{
  ℕ, zero, suc, ◌≡◌, ◌≢◌, refl, true, false, none, some, [], ◌∷◌, ◌++◌, Bytes, length-replicate,
  replicate, take, drop, All, arith, Returns,
}
use first_os_build.CString.Compare.{IsText}
use first_os_build.Filesystem.{
  File, FileSystem, create_file, write_file, read_file, success, list_files, filesystem_init,
  clear_files, find_file, is_named, use_slot, fill_slot, created,
}
use first_os_build.Filesystem.Count.{IsCounted, Reach, started, creates, Reach-IsCounted}
use first_os_build.Filesystem.Listing.{listing, count, list_files_refines}
use first_os_build.Terminal.Refine.{Shows}
use first_os_build.Terminal.Tests
use first_os_build.Terminal.View
use first_os_build.Filesystem.Directory.{contents, has_room, text_is, IsFile, append-Terminated}
use first_os_build.Filesystem.Lookup.{answer, read_file_refines}
use first_os_build.Filesystem.Create.{Creation, create_file_refines, create_file-overrun}
use first_os_build.Filesystem.Write.{Writing, write_file_refines, write_file-read_file}

abbrev letter : ℕ → Bytes
letter c = c ∷ []

-- A file "a" of three bytes, and a free slot.
abbrev first : File
first = record {
  name = letter b'a' ++ 0 ∷ replicate 30 0;
  bytes = 1 ∷ 2 ∷ 3 ∷ replicate 4093 0;
  size = 3;
  used = true;
}

abbrev second : File
second = record { name = replicate 32 0; bytes = replicate 4096 0; size = 0; used = false }

abbrev table : FileSystem
table = record { files = first ∷ second ∷ []; num_files = 1 }

first-IsFile : IsFile first
first-IsFile = record {
  name_size = omega (arith, length-replicate {A = ℕ} 30 0);
  bytes_size = omega (arith, length-replicate {A = ℕ} 4093 0);
  size_in = omega arith;
  named = λ u. append-Terminated (letter b'a') (replicate 30 0);
}

second-IsFile : IsFile second
second-IsFile = record {
  name_size = length-replicate {A = ℕ} 32 0;
  bytes_size = length-replicate {A = ℕ} 4096 0;
  size_in = omega arith;
  named = λ u. absurd (cc);
}

table-IsFile : All IsFile table.files
table-IsFile = (first-IsFile, (second-IsFile, tt))

letter-IsText : (c : ℕ) → c ≢ 0 → IsText (letter c)
letter-IsText c h = (h, tt)

read_file_refines_example :
    read_file (some (letter b'a' ++ 0 ∷ [])) (some (replicate 4096 7)) (some 0) table
    ≡ some (answer (contents table.files (letter b'a')) (replicate 4096 7) 0)
read_file_refines_example =
    read_file_refines table (letter b'a') [] (replicate 4096 7) 0 table-IsFile
      (letter-IsText b'a' (omega arith)) (omega (arith, length-replicate {A = ℕ} 4096 7))

create_file_refines_example :
    Returns (Creation table (letter b'b')) (create_file (some (letter b'b' ++ 0 ∷ [])) table)
create_file_refines_example =
    create_file_refines table (letter b'b') [] table-IsFile (letter-IsText b'b' (omega arith))
      (omega arith)

write_file_refines_example :
    Returns
      (Writing table (letter b'b') (4 ∷ 5 ∷ 6 ∷ []) 2)
      (write_file (some (letter b'b' ++ 0 ∷ [])) (some (4 ∷ 5 ∷ 6 ∷ [])) 2 table)
write_file_refines_example =
    write_file_refines table (letter b'b') [] (4 ∷ 5 ∷ 6 ∷ []) 2 table-IsFile
      (letter-IsText b'b' (omega arith)) (omega arith) (omega arith)

write_file-read_file_example :
    Returns
      (λ (result, s').
        (result ≡ success)
        × (read_file (some (letter b'b' ++ 0 ∷ [])) (some (replicate 4096 7)) (some 0) s'
            ≡ some (success, some (take 2 (4 ∷ 5 ∷ 6 ∷ []) ++ drop 2 (replicate 4096 7)), some 2)))
      (write_file (some (letter b'b' ++ 0 ∷ [])) (some (4 ∷ 5 ∷ 6 ∷ [])) 2 table)
unfolding contents has_room text_is
write_file-read_file_example =
    write_file-read_file table (letter b'b') [] (4 ∷ 5 ∷ 6 ∷ []) (replicate 4096 7) 2 0 table-IsFile
      (letter-IsText b'b' (omega arith)) (omega arith) (omega arith)
      (omega (arith, length-replicate {A = ℕ} 4096 7)) refl

-- a name of 31 letters
abbrev long_name : Bytes
long_name = replicate 31 b'x'

replicate-IsText : (n c : ℕ) → c ≢ 0 → IsText (replicate n c)
replicate-IsText zero c h = tt
replicate-IsText (suc n) c h = (h, replicate-IsText n c h)

long_name-IsText : IsText long_name
long_name-IsText = replicate-IsText 31 b'x' (omega arith)

create_file-overrun_example : create_file (some (long_name ++ 0 ∷ [])) table ≡ none
unfolding contents has_room text_is
create_file-overrun_example =
    create_file-overrun table long_name [] table-IsFile long_name-IsText
      (length-replicate {A = ℕ} 31 b'x') refl refl

list_files_refines_example :
    Returns
      (Shows 7 (View.type_text 7 (listing table.files) Tests.page))
      (list_files table Tests.state)
unfolding count
list_files_refines_example = list_files_refines table table-IsFile refl Tests.state-Shows

-- The table at the start, and with an empty file "a" in its first slot.
abbrev new_table : FileSystem
new_table = record { files = replicate 256 second; num_files = 7 }

abbrev with_a : FileSystem
with_a = record {
  files =
      record second { name = letter b'a' ++ replicate 31 0; used = true } ∷ replicate 255 second;
  num_files = 1;
}

a_created :
    create_file (some (letter b'a' ++ 0 ∷ [])) (filesystem_init new_table) ≡ some (success, with_a)
unfolding create_file filesystem_init clear_files find_file is_named use_slot fill_slot created
    first_os_build.CString.strlen first_os_build.CString.strncpy first_os_build.CString.zero_fill
a_created = refl

with_a-Reach : Reach with_a
with_a-Reach =
    creates (some (letter b'a' ++ 0 ∷ []))
      (started new_table (length-replicate {A = File} 256 second)) a_created

Reach-IsCounted_example : IsCounted with_a
Reach-IsCounted_example = Reach-IsCounted with_a-Reach
