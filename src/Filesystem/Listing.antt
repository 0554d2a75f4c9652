-- ===== src/Filesystem/Listing.antt =====
-- kernel/filesystem.cpp: what `list_files` shows.
use first_os_build.Prelude.{
  ℕ, ◌+◌, ◌<◌, ◌≡◌, refl, true, some, List, [], ◌∷◌, ◌++◌, Bytes, codes, ltb, ◌==◌, if◌then◌else◌,
  length, length-append, All, arith, inl, inr, Returns, returns, Bool-cases, ap, ◌∙◌, sym, subst,
  append_assoc, is_text-IsText, pos, lt→ltb,
}
use first_os_build.Prelude.Maybe
use first_os_build.CString.Compare.{IsText}
use first_os_build.Filesystem.{File, FileSystem, list_file, list_used, list_files}
use first_os_build.Filesystem.Directory.{IsFile, Terminated}
use first_os_build.Stdio.{Arg, int, text, format_loop, snprintf}
use first_os_build.Stdio.Plain.{format_loop-plain, format_loop-text, format_loop-unknown}
use first_os_build.Terminal.{KernelState, terminal_write_string}
use first_os_build.Terminal.Refine.{Shows}
use first_os_build.Terminal.Texts.{write_string_refines, type_text-append}
use first_os_build.Terminal.View
use first_os_build.Terminal.View.{View}

-- The text that an object holds.
unfoldable pub text_of : Bytes → Bytes
text_of [] = []
text_of (c ∷ o) = if c == 0 then [] else c ∷ text_of o

-- The line of a file. The size is not shown: %u is no directive of `snprintf`.
abbrev pub line : File → Bytes
line f = codes "  " ++ (text_of f.name ++ (codes " (u bytes)" ++ b'\n' ∷ []))

unfoldable pub lines : List File → Bytes
lines [] = []
lines (f ∷ fs) = if f.used then line f ++ lines fs else lines fs

-- The number of files.
unfoldable pub count : List File → ℕ
count [] = 0
count (f ∷ fs) = if f.used then count fs + 1 else count fs

abbrev pub listing : List File → Bytes
listing fs =
    codes "Files:" ++ b'\n' ∷ (if count fs == 0 then codes "  No files" ++ b'\n' ∷ [] else lines fs)

text_of-Terminated :
    (o : Bytes)
    → Terminated o
    → (r : Bytes) × (o ≡ text_of o ++ 0 ∷ r) × IsText (text_of o) × (length (text_of o) < length o)
unfolding text_of
text_of-Terminated [] term = absurd term
text_of-Terminated (c ∷ o) term = elim (Bool-cases (c == 0)) [
  | inl stop ↦ let e : c ≡ 0 = ground arith in rw stop (o, ap (λ x. x ∷ o) e, tt, omega arith)
  | inr more ↦
      let (r, same, t, fewer) =
        text_of-Terminated o (elim term [ inl z ↦ absurd (ground arith) | inr on ↦ on ]) in
      rw more (r, ap (◌∷◌ c) same, (ground arith, t), omega arith)
]

abbrev format : Bytes
format = codes "  %s (%u bytes)" ++ b'\n' ∷ 0 ∷ []

-- What the parts of the format write.
abbrev written : Bytes → Bytes
written t = (((codes "  " ++ t) ++ codes " (") ++ b'u' ∷ []) ++ (codes " bytes)" ++ b'\n' ∷ [])

length-written : (t : Bytes) → length (written t) ≡ length t + 13
length-written t = omega (
  arith,
  length-append (((codes "  " ++ t) ++ codes " (") ++ b'u' ∷ []) (codes " bytes)" ++ b'\n' ∷ []),
  length-append ((codes "  " ++ t) ++ codes " (") (b'u' ∷ []),
  length-append (codes "  " ++ t) (codes " ("),
)

format_loop-written :
    (t r : Bytes) (n : ℕ)
    → IsText t
    → length t < 32
    → format_loop 64 64 format (text (some (t ++ 0 ∷ r)) ∷ int (pos n) ∷ []) [] ≡ some (written t)
unfolding format_loop
format_loop-written t r n ht short =
    let out1 = codes "  " in
    let out2 = out1 ++ t in
    let out3 = out2 ++ codes " (" in
    let out4 = out3 ++ b'u' ∷ [] in
    let size3 = length-append out2 (codes " (") in
    let size4 = length-append out3 (b'u' ∷ []) in
    let tail = codes " bytes)" ++ b'\n' ∷ 0 ∷ [] in
    let number : List Arg = int (pos n) ∷ [] in
    format_loop-plain 64 64 (codes "  ") b'%' (b's' ∷ (codes " (%u" ++ tail))
      (text (some (t ++ 0 ∷ r)) ∷ number) [] (omega arith) (omega arith) (omega arith)
    ∙ format_loop-text 64 64 t r (codes " (%u" ++ tail) number out1 ht (omega arith) (omega arith)
    ∙ format_loop-plain 64 64 (codes " (") b'%' (b'u' ∷ tail) number out2 (omega arith)
        (omega arith) (omega arith)
    ∙ format_loop-unknown 64 64 b'u' (pos n) tail [] out3 (omega arith) (omega arith) (omega arith)
        (omega (arith, size3)) (omega arith)
    ∙ format_loop-plain 64 64 (codes " bytes)" ++ b'\n' ∷ []) 0 [] number out4 (omega arith)
        (omega (arith, size3, size4)) (omega arith)

written-line : (f : File) → written (text_of f.name) ≡ line f
written-line f = simp (append_assoc)

-- Each byte of a line is a byte of a text.
append-IsText : (s t : Bytes) → IsText s → IsText t → IsText (s ++ t)
append-IsText [] t hs ht = ht
append-IsText (c ∷ s) t (ne, hs) ht = (ne, append-IsText s t hs ht)

line-IsText : (f : File) → IsText (text_of f.name) → IsText (line f)
line-IsText f h = (
  omega arith,
  (omega arith, append-IsText (text_of f.name) (codes " (u bytes)" ++ b'\n' ∷ []) h (omega arith)),
)

list_file_refines :
    (f : File) {color : ℕ} {v : View} {s : KernelState}
    → IsFile f
    → f.used ≡ true
    → Shows color v s
    → Returns (Shows color (View.type_text color (line f) v)) (list_file f s)
unfolding list_file snprintf first_os_build.Stdio.vsnprintf
list_file_refines f {color} {v} {s} file used shows =
    let (r, name, ht, short) = text_of-Terminated f.name (file.named used) in
    let t = text_of f.name in
    let fits : ltb (length (written t)) 64 ≡ true =
      lt→ltb (length (written t)) 64 (omega (arith, short, file.name_size, length-written t)) in
    let loop : format_loop 64 64 format (text (some f.name) ∷ int (pos f.size) ∷ []) []
        ≡ some (written t) =
      ap (λ o. format_loop 64 64 format (text (some o) ∷ int (pos f.size) ∷ []) []) name
      ∙ format_loop-written t r f.size ht (omega (arith, short, file.name_size)) in
    rw (loop, fits)
      (subst
        (λ out.
          Returns (Shows color (View.type_text color (line f) v))
            (terminal_write_string (out ++ 0 ∷ []) s))
        (sym (written-line f)) (write_string_refines (line f) [] (line-IsText f ht) shows))

list_used_refines :
    (fs : List File) {color : ℕ} {v : View} {s : KernelState}
    → All IsFile fs
    → Shows color v s
    → Returns (Shows color (View.type_text color (lines fs) v)) (list_used fs s)
unfolding list_used lines View.type_text list_file
list_used_refines [] table shows = returns shows
list_used_refines (f ∷ fs) {color} {v} (file, table) shows = elim (Bool-cases f.used) [
  | inl used ↦ rw used (
      Maybe.bind (list_file_refines f file used shows) λ s' shown.
        Maybe.mono (list_used_refines fs table shown) λ s'' all.
          subst (λ v'. Shows color v' s'') (sym (type_text-append color (line f) (lines fs) v)) all)
  | inr unused ↦ rw unused (list_used_refines fs table shows)
]

-- On a page, in a table in order whose files are counted, `list_files` always ends. It shows "Files:"
-- and a line for each file in the order of the table, or that there are none.
pub list_files_refines :
    (fs : FileSystem) {color : ℕ} {v : View} {s : KernelState}
    → All IsFile fs.files
    → fs.num_files ≡ count fs.files
    → Shows color v s
    → Returns (Shows color (View.type_text color (listing fs.files) v)) (list_files fs s)
unfolding list_files
list_files_refines fs {color} {v} table counted shows =
    let title : Bytes = codes "Files:" ++ b'\n' ∷ [] in
    let empty : Bytes = codes "  No files" ++ b'\n' ∷ [] in
    Maybe.bind (write_string_refines title [] (is_text-IsText title refl) shows) λ s' titled.
      elim (Bool-cases (count fs.files == 0)) [
        | inl none_there ↦
            rw (counted, none_there)
              (Maybe.mono (write_string_refines empty [] (is_text-IsText empty refl) titled)
                λ s'' all.
                  subst (λ v'. Shows color v' s'') (sym (type_text-append color title empty v)) all)
        | inr some_there ↦
            rw (counted, some_there)
              (Maybe.mono (list_used_refines fs.files table titled) λ s'' all.
                subst (λ v'. Shows color v' s'')
                  (sym (type_text-append color title (lines fs.files) v)) all)
      ]
