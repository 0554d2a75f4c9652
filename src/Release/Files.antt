-- ===== src/Release/Files.antt =====
-- release/kernel/filesystem.cpp: the two functions that check less than those of kernel/filesystem.cpp.
use first_os_build.Prelude.{ℕ, ◌≡◌, Bool, Option, none, some, Bytes, ℤ}
use first_os_build.Filesystem
use first_os_build.Filesystem.{dummy_text, success}

-- `extern "C" char* read_file(const char*)`
unfoldable pub read_file_stub : Option Bytes → Option Bytes
read_file_stub filename = some dummy_text

-- `extern "C" int write_file(const char*, const char*, size_t)`
unfoldable pub write_file_stub : Option Bytes → Bool → ℕ → ℤ
write_file_stub filename has_data size = success

-- Where the newer functions do not fail, the older ones give the same.
read_file_stub-same :
    (filename : Option Bytes) {buffer : Bytes}
    → Filesystem.read_file_stub filename ≡ some buffer
    → read_file_stub filename ≡ some buffer
unfolding read_file_stub Filesystem.read_file_stub
read_file_stub-same none e = absurd (cc)
read_file_stub-same (some filename) e = e

write_file_stub-same :
    (filename : Option Bytes) (has_data : Bool) (size : ℕ)
    → Filesystem.write_file_stub filename has_data size ≡ success
    → write_file_stub filename has_data size ≡ Filesystem.write_file_stub filename has_data size
unfolding write_file_stub
write_file_stub-same filename has_data size e = cc
