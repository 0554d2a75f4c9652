-- ===== src/Filesystem/Lookup.antt =====
-- kernel/filesystem.cpp: the operations that read the table, against the directory.
use mathlib.Core.Option
use first_os_build.Prelude.{
  ℕ, ◌≤◌, ◌≡◌, refl, ◌&&◌, Option, none, some, List, [], ◌∷◌, ◌++◌, Bytes, length, take, drop,
  length-take, All, arith, inl, inr, Returns, returns, Bool-cases, is_some, ℤ, ◌∙◌,
}
use first_os_build.Prelude.Maybe
use first_os_build.CString.Compare.{IsText}
use first_os_build.CString.Copy.{copy_bytes-take}
use first_os_build.Filesystem.{
  File, FileSystem, clear_files, filesystem_init, find_file, file_exists, read_file, read_found,
  success, failure,
}
use first_os_build.Filesystem.Directory.{contents, text_is, IsFile, is_named-eq}

-- The loop of a lookup ends with the file of the name, or with none.
abbrev pub Found : List File → Bytes → Option File → Type 0
Found fs t none = contents fs t ≡ none
Found fs t (some f) = IsFile f × (contents fs t ≡ some (take f.size f.bytes))

Found-move :
    (fs gs : List File) (t : Bytes) (o : Option File)
    → contents fs t ≡ contents gs t
    → Found gs t o
    → Found fs t o
Found-move fs gs t none same found = same ∙ found
Found-move fs gs t (some f) same (v, found) = (v, same ∙ found)

pub find_file-Found :
    (fs : List File) (t r : Bytes)
    → All IsFile fs
    → IsText t
    → Returns (Found fs t) (find_file fs (t ++ 0 ∷ r))
unfolding find_file contents
find_file-Found [] t r table ht = returns refl
find_file-Found (f ∷ fs) t r (v, table) ht = elim (Bool-cases (f.used && text_is f.name t)) [
  | inl same ↦ rw (is_named-eq f t r v ht, same) (returns (v, rw same refl))
  | inr other ↦
      rw (is_named-eq f t r v ht, other)
        (Maybe.mono (find_file-Found fs t r table ht)
          λ o found. Found-move (f ∷ fs) fs t o (rw other refl) found)
]

is_some-Found :
    (fs : List File) (t : Bytes) (o : Option File)
    → Found fs t o
    → Option.map is_some (some o) ≡ some (is_some (contents fs t))
is_some-Found fs t none found = rw found refl
is_some-Found fs t (some f) found = rw found.1 refl

-- In a table in order, the lookup of a text always ends and finds the names of the directory.
pub file_exists-contents :
    (s : FileSystem) (t r : Bytes)
    → All IsFile s.files
    → IsText t
    → file_exists (some (t ++ 0 ∷ r)) s ≡ some (is_some (contents s.files t))
unfolding file_exists
file_exists-contents s t r table ht =
    let (o, eq, found) = Maybe.to_sigma (find_file-Found s.files t r table ht) in
    rw eq (is_some-Found s.files t o found)

-- What a reader gets for the contents of a name: all of them, at the start of the buffer.
abbrev pub answer : Option Bytes → Bytes → ℕ → ℤ × Option Bytes × Option ℕ
answer none buffer size = (failure, some buffer, some size)
answer (some cs) buffer size = (success, some (cs ++ drop (length cs) buffer), some (length cs))

read_Found :
    (fs : List File) (t : Bytes) (o : Option File)
    → Found fs t o
    → (buffer : Bytes) (size : ℕ) → 4096 ≤ length buffer
    → read_found buffer size o ≡ some (answer (contents fs t) buffer size)
unfolding read_found
read_Found fs t none found buffer size room = rw found refl
read_Found fs t (some f) (v, found) buffer size room =
    let stored : length (take f.size f.bytes) ≡ f.size =
      omega (arith, length-take f.size f.bytes, v.size_in, v.bytes_size) in
    rw
      (
        found,
        copy_bytes-take f.size f.bytes buffer (omega (arith, v.size_in, v.bytes_size))
            (omega (arith, v.size_in)),
        stored,
      )
      refl

-- In a table in order, reading into a buffer of at least 4096 bytes always ends. It copies the
-- contents of the name in the directory and gives their length, or fails and leaves the buffer.
pub read_file_refines :
    (s : FileSystem) (t r buffer : Bytes) (size : ℕ)
    → All IsFile s.files
    → IsText t
    → 4096 ≤ length buffer
    → read_file (some (t ++ 0 ∷ r)) (some buffer) (some size) s
      ≡ some (answer (contents s.files t) buffer size)
unfolding read_file read_found
read_file_refines s t r buffer size table ht room =
    let (o, eq, found) = Maybe.to_sigma (find_file-Found s.files t r table ht) in
    rw eq (read_Found s.files t o found buffer size room)

clear_files-IsFile :
    (fs : List File)
    → All (λ f. (length f.name ≡ 32) × (length f.bytes ≡ 4096) × (f.size ≤ 4096)) fs
    → All IsFile (clear_files fs)
unfolding clear_files
clear_files-IsFile [] sized = tt
clear_files-IsFile (f ∷ fs) ((n, b, small), sized) = (
  record { name_size = n; bytes_size = b; size_in = small; named = λ u. absurd (cc) },
  clear_files-IsFile fs sized,
)

clear_files-contents : (fs : List File) (t : Bytes) → contents (clear_files fs) t ≡ none
unfolding clear_files contents
clear_files-contents [] t = refl
clear_files-contents (f ∷ fs) t = clear_files-contents fs t

-- After `filesystem_init` a table whose entries have names of 32 bytes, data of 4096 bytes and
-- sizes of at most 4096 is in order, and its directory has no name.
pub filesystem_init-empty :
    (s : FileSystem) (t : Bytes)
    → All (λ f. (length f.name ≡ 32) × (length f.bytes ≡ 4096) × (f.size ≤ 4096)) s.files
    → All IsFile (filesystem_init s).files × (contents (filesystem_init s).files t ≡ none)
unfolding filesystem_init
filesystem_init-empty s t sized = (clear_files-IsFile s.files sized, clear_files-contents s.files t)
