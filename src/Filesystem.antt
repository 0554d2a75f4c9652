-- ===== src/Filesystem.antt =====
-- kernel/filesystem.cpp: the table of files. A pointer is `none` where it is null and else the bytes
-- from it to the end of its object. An outer `none` is an access past the end of an object.
pub mod Count
pub mod Directory
pub mod Listing
pub mod Filled
pub mod Lookup
pub mod Slots
pub mod Create
pub mod Write
mod Tests
use mathlib.Core.Option
use first_os_build.Prelude.{
  ℕ, ◌+◌, ◌-◌, ◌%◌, ◌^◌, Bool, true, false, Option, none, some, List, [], ◌∷◌, ◌++◌, Bytes, codes,
  ltb, leb, ◌==◌, if◌then◌else◌, guard, ◌>>=◌, ◌>>◌, is_some, ℤ, pos, negsuc, is_zero, set, length,
  replicate,
}
use first_os_build.CString.{strlen, strcmp, strncpy, copy_bytes}
use first_os_build.Stdio.{int, text, snprintf}
use first_os_build.Terminal.{KernelState, terminal_write_string}

abbrev pub max_files : ℕ
max_files = 256

abbrev pub max_filename_length : ℕ
max_filename_length = 32

abbrev pub max_file_size : ℕ
max_file_size = 4096

pub record File : Type 0 where
  pub name : Bytes
  pub bytes : Bytes
  pub size : ℕ
  pub used : Bool

pub record FileSystem : Type 0 where
  pub files : List File
  pub num_files : ℕ

-- the results 0 and -1
abbrev pub success : ℤ
success = pos 0

abbrev pub failure : ℤ
failure = negsuc 0

unfoldable pub clear_files : List File → List File
clear_files [] = []
clear_files (f ∷ fs) = record f { used = false } ∷ clear_files fs

unfoldable pub filesystem_init : FileSystem → FileSystem
filesystem_init s = record { files = clear_files s.files; num_files = 0 }

-- `files[i].used && strcmp(files[i].name, filename) == 0`
unfoldable pub is_named : File → Bytes → Option Bool
is_named f filename = if f.used then Option.map is_zero (strcmp f.name filename) else some false

-- The loop over the table for the file of a name, from a slot on.
unfoldable pub find_file : List File → Bytes → Option (Option File)
find_file [] filename = some none
find_file (f ∷ fs) filename =
    let rest = find_file fs filename in
    is_named f filename >>= λ same. if same then some (some f) else rest

unfoldable pub file_exists : Option Bytes → FileSystem → Option Bool
file_exists none s = some false
file_exists (some filename) s = Option.map is_some (find_file s.files filename)

-- `strncpy(files[i].name, filename, 31); files[i].name[31] = '\0'; ...`
unfoldable pub fill_slot : File → Bytes → Option File
fill_slot f filename = do
  name ← strncpy f.name filename (max_filename_length - 1)
  guard (ltb (max_filename_length - 1) (length name))
  some (record f { name = set name (max_filename_length - 1) 0; size = 0; used = true })

-- The loop "Find free slot"; the inner `none` is a table with no free slot.
unfoldable pub use_slot : List File → Bytes → Option (Option (List File))
use_slot [] filename = some none
use_slot (f ∷ fs) filename =
    let rest = Option.map (Option.map (◌∷◌ f)) (use_slot fs filename) in
    if f.used then rest else (fill_slot f filename >>= λ f'. some (some (f' ∷ fs)))

unfoldable pub created : FileSystem → Option (List File) → ℤ × FileSystem
created s none = (failure, s)
created s (some files) = (success, record { files = files; num_files = (s.num_files + 1) % 2 ^ 32 })

unfoldable pub create_file : Option Bytes → FileSystem → Option (ℤ × FileSystem)
create_file none s = some (failure, s)
create_file (some filename) s = do
  len ← strlen filename
  if leb max_filename_length len then some (failure, s) else do
    old ← find_file s.files filename
    if is_some old
        then some (failure, s)
        else do files ← use_slot s.files filename; some (created s files)

-- `memcpy(files[i].data, data, size); files[i].size = size;` for the file of a name, from a slot on
unfoldable pub write_slot : List File → Bytes → Bytes → ℕ → Option (Option (List File))
write_slot [] filename data_bytes size = some none
write_slot (f ∷ fs) filename data_bytes size =
    let rest = Option.map (Option.map (◌∷◌ f)) (write_slot fs filename data_bytes size) in
    is_named f filename >>= λ same.
    if same
    then (copy_bytes f.bytes data_bytes size >>= λ bytes.
        some (some (record f { bytes = bytes; size = size } ∷ fs)))
    else rest

unfoldable pub written : FileSystem → Option (List File) → ℤ × FileSystem
written s none = (failure, s)
written s (some files) = (success, record s { files = files })

-- `int write_file(const char*, const uint8_t*, size_t)`
unfoldable pub write_file : Option Bytes → Option Bytes → ℕ → FileSystem → Option (ℤ × FileSystem)
write_file none data_bytes size s = some (failure, s)
write_file (some filename) none size s = some (failure, s)
write_file (some filename) (some data_bytes) size s =
    if ltb max_file_size size then some (failure, s) else do
      old ← write_slot s.files filename data_bytes size
      if is_some old then some (written s old) else do
        (result, s') ← create_file (some filename) s
        if is_zero result
            then (write_slot s'.files filename data_bytes size >>= λ files. some (written s' files))
            else some (failure, s')

-- "Find file" of `read_file`, once the loop has ended
unfoldable pub read_found : Bytes → ℕ → Option File → Option (ℤ × Option Bytes × Option ℕ)
read_found buffer size none = some (failure, some buffer, some size)
read_found buffer size (some f) =
    copy_bytes buffer f.bytes f.size >>= λ buffer'. some (success, some buffer', some f.size)

-- `int read_file(const char*, uint8_t*, size_t*)`: the result, the buffer and the size. A null pointer
-- keeps what it points to at `none`.
unfoldable pub read_file :
    Option Bytes → Option Bytes → Option ℕ → FileSystem → Option (ℤ × Option Bytes × Option ℕ)
read_file none buffer size s = some (failure, buffer, size)
read_file (some filename) none size s = some (failure, none, size)
read_file (some filename) (some buffer) none s = some (failure, some buffer, none)
read_file (some filename) (some buffer) (some size) s = do
  old ← find_file s.files filename
  read_found buffer size old

-- `extern "C" int write_file(const char*, const char*, size_t)`, which stores nothing
unfoldable pub write_file_stub : Option Bytes → Bool → ℕ → ℤ
write_file_stub none has_data size = failure
write_file_stub (some filename) has_data size =
    if has_data then (if size == 0 then failure else success) else failure

-- The text at `dummy_buffer`, of 1024 bytes.
abbrev pub dummy_text : Bytes
dummy_text = codes "This is a dummy file content." ++ b'\n' ∷ replicate 994 0

-- `extern "C" char* read_file(const char*)`
unfoldable pub read_file_stub : Option Bytes → Option Bytes
read_file_stub none = none
read_file_stub (some filename) = some dummy_text

-- One line of the list; `info` has 64 bytes.
unfoldable pub list_file : File → KernelState → Option KernelState
list_file f s = do
  (n, info) ←
      snprintf (some 64) 64 (some (codes "  %s (%u bytes)" ++ b'\n' ∷ 0 ∷ []))
        (text (some f.name) ∷ int (pos f.size) ∷ [])
  terminal_write_string (info ++ 0 ∷ []) s

unfoldable pub list_used : List File → KernelState → Option KernelState
list_used [] s = some s
list_used (f ∷ fs) s = if f.used then (list_file f s >>= λ s'. list_used fs s') else list_used fs s

unfoldable pub list_files : FileSystem → KernelState → Option KernelState
list_files fs s = do
  s ← terminal_write_string (codes "Files:" ++ b'\n' ∷ 0 ∷ []) s
  if fs.num_files == 0
      then terminal_write_string (codes "  No files" ++ b'\n' ∷ 0 ∷ []) s
      else list_used fs.files s
