-- ===== src/Filesystem/Write.antt =====
-- kernel/filesystem.cpp: `write_file` against the directory.
use first_os_build.Prelude.{
  ℕ, ◌≤◌, ◌≡◌, ◌≢◌, ◌⊎◌, refl, Bool, true, false, not, ◌&&◌, ◌||◌, Option, none, some, List, [],
  ◌∷◌, ◌++◌, Bytes, if◌then◌else◌, ltb, length, length-take, take, drop, All, arith, inl, inr,
  Returns, returns, Bool-cases, is_some, is_zero, ap, ◌∙◌, ℤ, ◌>>=◌,
}
use first_os_build.Prelude.Maybe
use first_os_build.CString.Compare.{IsText}
use first_os_build.Filesystem.{
  File, FileSystem, create_file, write_file, read_file, success, failure, written, write_slot,
}
use first_os_build.Filesystem.Directory.{contents, IsFile, Updated}
use first_os_build.Filesystem.Lookup.{answer, read_file_refines}
use first_os_build.Filesystem.Slots.{Rewritten, write_slot-Rewritten}
use first_os_build.Filesystem.Create.{create_refused, Creation, create_file_refines}

-- Writing is refused if the contents are too long, or the name is new and cannot be created.
abbrev pub write_refused : FileSystem → Bytes → ℕ → Bool
write_refused s t size = ltb 4096 size || (not (is_some (contents s.files t)) && create_refused s t)

-- What `write_file` does to the directory.
abbrev pub Writing : FileSystem → Bytes → Bytes → ℕ → ℤ × FileSystem → Type 0
Writing s t bytes size (result, s') =
    (write_refused s t size ≡ true) × (result ≡ failure) × (s' ≡ s)
    ⊎ (write_refused s t size ≡ false)
      × (result ≡ success)
      × Updated s.files t (take size bytes) s'.files

written_new :
    (s s' : FileSystem) (t bytes : Bytes) (size : ℕ) (o : Option (List File))
    → write_refused s t size ≡ false
    → Updated s.files t [] s'.files
    → Rewritten s'.files t (take size bytes) o
    → Writing s t bytes size (written s' o)
unfolding written
written_new s s' t bytes size none allowed up gone = absurd (ground (arith, up.here))
written_new s s' t bytes size (some fs) allowed up (old, up') = inr (
  allowed,
  refl,
  record {
    table = up'.table;
    here = up'.here;
    others = λ u hu ne. up'.others u hu ne ∙ up.others u hu ne;
  },
)

refused_new :
    (s : FileSystem) (t : Bytes) (size : ℕ)
    → ltb 4096 size ≡ false
    → contents s.files t ≡ none
    → write_refused s t size ≡ create_refused s t
refused_new s t size short new =
    ap (λ b. b || (not (is_some (contents s.files t)) && create_refused s t)) short
    ∙ ap (λ o. not (is_some o) && create_refused s t) new

write_created :
    (s : FileSystem) (t r bytes : Bytes) (size : ℕ) (result : ℤ) (s' : FileSystem)
    → IsText t
    → size ≤ 4096
    → size ≤ length bytes
    → contents s.files t ≡ none
    → Creation s t (result, s')
    → Returns (Writing s t bytes size) (
        if is_zero result
        then (write_slot s'.files (t ++ 0 ∷ r) bytes size >>= λ files. some (written s' files))
        else some (failure, s'))
write_created s t r bytes size result s' ht small room new (inl (refused, failed, same)) =
    let short : ltb 4096 size ≡ false = ground arith in
    rw failed (returns (inl (refused_new s t size short new ∙ refused, refl, same)))
write_created s t r bytes size result s' ht small room new (inr (allowed, made, up, count)) =
    let short : ltb 4096 size ≡ false = ground arith in
    rw made (
      Maybe.bind (write_slot-Rewritten s'.files t r bytes size up.table ht small room) λ o done.
        returns
          (written_new s s' t bytes size o (refused_new s t size short new ∙ allowed) up done))

write_search :
    (s : FileSystem) (t r bytes : Bytes) (size : ℕ) (o : Option (List File))
    → All IsFile s.files
    → IsText t
    → length t ≢ 31
    → size ≤ 4096
    → size ≤ length bytes
    → Rewritten s.files t (take size bytes) o
    → Returns (Writing s t bytes size) (
        if is_some o
        then some (written s o)
        else (create_file (some (t ++ 0 ∷ r)) s >>= λ (result, s').
            if is_zero result
            then (write_slot s'.files (t ++ 0 ∷ r) bytes size >>= λ files. some (written s' files))
            else some (failure, s')))
unfolding written
write_search s t r bytes size none table ht fit small room new =
    Maybe.bind (create_file_refines s t r table ht fit)
      λ (result, s') made. write_created s t r bytes size result s' ht small room new made
write_search s t r bytes size (some fs) table ht fit small room (old, up) =
    let short : ltb 4096 size ≡ false = ground arith in
    returns (inr (rw (short, old) refl, refl, up))

-- In a table in order, writing at most as many bytes as there are, under a name that is not of 31
-- characters, always ends. It fails, and leaves the table, exactly if there are more than 4096 bytes or
-- the name is new and cannot be created; else the directory has the bytes under the name and every
-- other name as before, and the table is in order.
pub write_file_refines :
    (s : FileSystem) (t r bytes : Bytes) (size : ℕ)
    → All IsFile s.files
    → IsText t
    → length t ≢ 31
    → size ≤ length bytes
    → Returns (Writing s t bytes size) (write_file (some (t ++ 0 ∷ r)) (some bytes) size s)
unfolding write_file
write_file_refines s t r bytes size table ht fit room = elim (Bool-cases (ltb 4096 size)) [
  | inl long ↦ rw long (returns (inl (rw long refl, refl, refl)))
  | inr short ↦ rw short (
      Maybe.bind (write_slot-Rewritten s.files t r bytes size table ht (ground arith) room)
        λ o done. write_search s t r bytes size o table ht fit (ground arith) room done)
]

reread :
    (s s' : FileSystem) (t r bytes buffer : Bytes) (size n : ℕ) (result : ℤ)
    → IsText t
    → size ≤ length bytes
    → 4096 ≤ length buffer
    → write_refused s t size ≡ false
    → Writing s t bytes size (result, s')
    → (result ≡ success)
      × (read_file (some (t ++ 0 ∷ r)) (some buffer) (some n) s'
          ≡ some (success, some (take size bytes ++ drop size buffer), some size))
reread s s' t r bytes buffer size n result ht room space allowed (inl (refused, failed, same)) =
    absurd (ground arith)
reread s s' t r bytes buffer size n result ht room space allowed (inr (allowed', made, up)) = (
  made,
  let stored : length (take size bytes) ≡ size = omega (arith, length-take size bytes) in
      read_file_refines s' t r buffer n up.table ht space
      ∙ ap (λ o. some (answer o buffer n)) up.here
      ∙ ap (λ k. some (success, some (take size bytes ++ drop k buffer), some k)) stored,
)

-- Once a file is written, from a table in order and with nothing to refuse, reading the name back
-- gives the bytes that were written and their number.
pub write_file-read_file :
    (s : FileSystem) (t r bytes buffer : Bytes) (size n : ℕ)
    → All IsFile s.files
    → IsText t
    → length t ≢ 31
    → size ≤ length bytes
    → 4096 ≤ length buffer
    → write_refused s t size ≡ false
    → Returns
        (λ (result, s').
          (result ≡ success)
          × (read_file (some (t ++ 0 ∷ r)) (some buffer) (some n) s'
              ≡ some (success, some (take size bytes ++ drop size buffer), some size)))
        (write_file (some (t ++ 0 ∷ r)) (some bytes) size s)
write_file-read_file s t r bytes buffer size n table ht fit room space allowed =
    Maybe.mono (write_file_refines s t r bytes size table ht fit room)
      λ (result, s') wrote. reread s s' t r bytes buffer size n result ht room space allowed wrote
