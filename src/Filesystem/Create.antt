-- ===== src/Filesystem/Create.antt =====
-- kernel/filesystem.cpp: `create_file` against the directory.
use mathlib.Core.Option
use first_os_build.Prelude.{
  ◌+◌, ◌%◌, ◌<◌, ◌≡◌, ◌≢◌, ◌⊎◌, refl, Bool, true, false, not, ◌||◌, Option, none, some, List, [],
  ◌∷◌, ◌++◌, Bytes, if◌then◌else◌, leb, length, All, arith, inl, inr, Returns, returns, Bool-cases,
  is_some, ap, ◌∙◌, ℤ, ◌>>=◌,
}
use first_os_build.Prelude.Maybe
use first_os_build.CString.{strncpy}
use first_os_build.CString.Compare.{IsText, strlen-text}
use first_os_build.CString.Copy.{strncpy-overrun}
use first_os_build.Filesystem.{
  File, FileSystem, create_file, success, failure, created, use_slot, fill_slot,
}
use first_os_build.Filesystem.Directory.{contents, has_room, IsFile, Updated}
use first_os_build.Filesystem.Lookup.{Found, find_file-Found}
use first_os_build.Filesystem.Filled.{Created, use_slot-Created}

-- A name is refused if it is too long, if the directory has it, or if there is no room.
abbrev pub create_refused : FileSystem → Bytes → Bool
create_refused s t = leb 32 (length t) || (is_some (contents s.files t) || not (has_room s.files))

-- What `create_file` does to the directory.
abbrev pub Creation : FileSystem → Bytes → ℤ × FileSystem → Type 0
Creation s t (result, s') =
    (create_refused s t ≡ true) × (result ≡ failure) × (s' ≡ s)
    ⊎ (create_refused s t ≡ false)
      × (result ≡ success)
      × Updated s.files t [] s'.files
      × (s'.num_files ≡ (s.num_files + 1) % 4294967296)

created-Creation :
    (s : FileSystem) (t : Bytes) (o : Option (List File))
    → length t < 31
    → contents s.files t ≡ none
    → Created s.files t o
    → Creation s t (created s o)
unfolding created
created-Creation s t none short new full =
    let fits : leb 32 (length t) ≡ false = ground arith in
    inl (rw (fits, new, full) refl, refl, refl)
created-Creation s t (some fs) short new (room, up) =
    let fits : leb 32 (length t) ≡ false = ground arith in
    inr (rw (fits, new, room) refl, refl, up, refl)

create_new :
    (s : FileSystem) (t r : Bytes) (o : Option File)
    → All IsFile s.files
    → IsText t
    → length t < 31
    → Found s.files t o
    → Returns (Creation s t) (
        if is_some o
        then some (failure, s)
        else (use_slot s.files (t ++ 0 ∷ r) >>= λ files. some (created s files)))
create_new s t r none table ht short new =
    Maybe.bind (use_slot-Created s.files t r table ht short new)
      λ files made. returns (created-Creation s t files short new made)
create_new s t r (some f) table ht short (v, old) =
    let fits : leb 32 (length t) ≡ false = ground arith in
    returns (inl (rw (fits, old) refl, refl, refl))

-- In a table in order, creating a file whose name is not of 31 characters always ends. It fails, and
-- leaves the table, exactly if the name has 32 or more characters, the directory has it, or no slot is
-- free; else the directory has the name with no bytes, every other name as before, and the table is in
-- order and counts one file more.
pub create_file_refines :
    (s : FileSystem) (t r : Bytes)
    → All IsFile s.files
    → IsText t
    → length t ≢ 31
    → Returns (Creation s t) (create_file (some (t ++ 0 ∷ r)) s)
unfolding create_file
create_file_refines s t r table ht fit =
    rw (strlen-text t r ht) (elim (Bool-cases (leb 32 (length t))) [
      | inl long ↦ rw long (returns (inl (rw long refl, refl, refl)))
      | inr short ↦ rw short (
          Maybe.bind (find_file-Found s.files t r table ht)
            λ o found. create_new s t r o table ht (ground arith) found)
    ])

overrun_slots :
    (fs : List File) (t r : Bytes)
    → All IsFile fs
    → IsText t
    → length t ≡ 31
    → has_room fs ≡ true
    → use_slot fs (t ++ 0 ∷ r) ≡ none
unfolding use_slot has_room fill_slot
overrun_slots [] t r table ht long room = absurd (ground arith)
overrun_slots (f ∷ fs) t r (v, table) ht long room =
    let later = Option.map (Option.map (◌∷◌ f)) (use_slot fs (t ++ 0 ∷ r)) in
    let now = fill_slot f (t ++ 0 ∷ r) >>= λ f'. some (some (f' ∷ fs)) in
    let slot : (b : Bool)
        → f.used ≡ b
        → use_slot (f ∷ fs) (t ++ 0 ∷ r) ≡ (if b then later else now) =
      λ b. ap (λ b. if b then later else now) in
    let overrun : strncpy f.name (t ++ 0 ∷ r) 31 ≡ none =
      strncpy-overrun 31 t r f.name ht (omega arith) (omega (arith, v.name_size)) in
    elim (Bool-cases f.used) [
      | inl used ↦
          slot true used
          ∙ ap (Option.map (Option.map (◌∷◌ f))) (overrun_slots fs t r table ht long (ground arith))
      | inr free ↦ slot false free ∙ rw overrun refl
    ]

overrun_create :
    (s : FileSystem) (t r : Bytes) (o : Option File)
    → Found s.files t o
    → contents s.files t ≡ none
    → use_slot s.files (t ++ 0 ∷ r) ≡ none
    → (if is_some o
        then some (failure, s)
        else (use_slot s.files (t ++ 0 ∷ r) >>= λ files. some (created s files)))
      ≡ none
overrun_create s t r none found new e = rw e refl
overrun_create s t r (some f) (v, old) new e = absurd (ground arith)

-- Creating a file whose name has 31 characters, where the name is new and a slot is free, writes past
-- the table's entry: `strncpy` does not stop.
pub create_file-overrun :
    (s : FileSystem) (t r : Bytes)
    → All IsFile s.files
    → IsText t
    → length t ≡ 31
    → contents s.files t ≡ none
    → has_room s.files ≡ true
    → create_file (some (t ++ 0 ∷ r)) s ≡ none
unfolding create_file
create_file-overrun s t r table ht long new room =
    let fits : leb 32 (length t) ≡ false = ground arith in
    let (o, eq, found) = Maybe.to_sigma (find_file-Found s.files t r table ht) in
    rw (strlen-text t r ht, fits, eq)
      (overrun_create s t r o found new (overrun_slots s.files t r table ht long room))
