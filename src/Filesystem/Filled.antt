-- ===== src/Filesystem/Filled.antt =====
-- kernel/filesystem.cpp: what the first free slot of the table becomes in `create_file`.
use mathlib.Core.Option
use first_os_build.Prelude.{
  ℕ, zero, suc, ◌+◌, ◌-◌, ◌<◌, ◌≡◌, refl, Bool, true, false, ◌&&◌, Option, none, some, List, [],
  ◌∷◌, ◌++◌, Bytes, if◌then◌else◌, length, length-append, length-drop, length-replicate, length-set,
  set, take, drop, replicate, All, arith, inl, inr, Returns, returns, Bool-cases, ap, sym, subst,
  ◌∙◌, lt→ltb, ◌>>=◌, append_assoc,
}
use first_os_build.Prelude.Maybe
use first_os_build.CString.{strncpy}
use first_os_build.CString.Compare.{IsText}
use first_os_build.CString.Copy.{strncpy-short}
use first_os_build.Filesystem.{File, fill_slot, use_slot}
use first_os_build.Filesystem.Directory.{
  contents, has_room, text_is, text_is-append, append-Terminated, IsFile, Updated,
}
use first_os_build.Filesystem.Slots.{head-Updated, tail-Updated, Returns-map}

-- What the search for a free slot leaves.
abbrev pub Created : List File → Bytes → Option (List File) → Type 0
Created fs t none = has_room fs ≡ false
Created fs t (some fs') = (has_room fs ≡ true) × Updated fs t [] fs'

Created-tail :
    (f : File) (fs : List File) (t : Bytes) (o : Option (List File))
    → IsFile f
    → f.used ≡ true
    → (f.used && text_is f.name t) ≡ false
    → Created fs t o
    → Created (f ∷ fs) t (Option.map (◌∷◌ f) o)
unfolding has_room
Created-tail f fs t none v used other r = rw used r
Created-tail f fs t (some fs') v used other (room, up) =
    (rw used room, tail-Updated f fs fs' t [] v other up)

set-append : (xs ys : Bytes) (i j v : ℕ) → j ≡ length xs + i → set (xs ++ ys) j v ≡ xs ++ set ys i v
set-append [] ys i j v e = ap (λ k. set ys k v) (omega arith)
set-append (x ∷ xs) ys i zero v e = absurd (omega arith)
set-append (x ∷ xs) ys i (suc j) v e = ap (◌∷◌ x) (set-append xs ys i j v (omega arith))

named_file :
    (f : File) (t rest : Bytes)
    → IsFile f
    → length (t ++ 0 ∷ rest) ≡ 32
    → let g : File = record f { name = t ++ 0 ∷ rest; size = 0; used = true } in
      IsFile g × (g.used ≡ true) × (text_is g.name t ≡ true) × (g.size ≡ 0)
named_file f t rest v whole = (
  record {
    name_size = whole;
    bytes_size = v.bytes_size;
    size_in = omega arith;
    named = λ u. append-Terminated t rest;
  },
  refl,
  text_is-append t rest,
  refl,
)

-- The name of a slot once a text of at most 30 bytes is copied into it.
fill_slot-named :
    (f : File) (t r : Bytes)
    → IsFile f
    → IsText t
    → length t < 31
    → Returns
        (λ g. IsFile g × (g.used ≡ true) × (text_is g.name t ≡ true) × (g.size ≡ 0))
        (fill_slot f (t ++ 0 ∷ r))
unfolding fill_slot
fill_slot-named f t r v ht short =
    let k : ℕ = 30 - length t in
    let tail : Bytes = replicate k 0 ++ drop 31 f.name in
    let fill : 31 - length t ≡ suc k = omega arith in
    let whole : length (t ++ 0 ∷ tail) ≡ 32 = omega (
      arith,
      length-append t (0 ∷ tail),
      length-append (replicate k 0) (drop 31 f.name),
      length-replicate {A = ℕ} k 0,
      length-drop 31 f.name,
      v.name_size,
    ) in
    let ended : set (t ++ 0 ∷ tail) 31 0 ≡ t ++ 0 ∷ set tail k 0 =
      set-append t (0 ∷ tail) (suc k) 31 0 (omega arith) in
    let copied_name : strncpy f.name (t ++ 0 ∷ r) 31 ≡ some (t ++ 0 ∷ tail) =
      strncpy-short t r f.name 31 ht short (omega (arith, v.name_size))
      ∙ ap some (
          append_assoc t (replicate (31 - length t) 0) (drop 31 f.name)
          ∙ ap (λ n. t ++ (replicate n 0 ++ drop 31 f.name)) fill) in
    rw (copied_name, lt→ltb 31 (length (t ++ 0 ∷ tail)) (omega (arith, whole)), ended)
      (returns (
        named_file f t (set tail k 0) v (
          omega (
            arith,
            whole,
            length-append t (0 ∷ tail),
            length-append t (0 ∷ set tail k 0),
            length-set tail k 0,
          ))))

pub use_slot-Created :
    (fs : List File) (t r : Bytes)
    → All IsFile fs
    → IsText t
    → length t < 31
    → contents fs t ≡ none
    → Returns (Created fs t) (use_slot fs (t ++ 0 ∷ r))
unfolding use_slot has_room contents
use_slot-Created [] t r table ht short new = returns refl
use_slot-Created (f ∷ fs) t r (v, table) ht short new =
    let later = Option.map (Option.map (◌∷◌ f)) (use_slot fs (t ++ 0 ∷ r)) in
    let now = fill_slot f (t ++ 0 ∷ r) >>= λ f'. some (some (f' ∷ fs)) in
    let slot : (b : Bool)
        → f.used ≡ b
        → use_slot (f ∷ fs) (t ++ 0 ∷ r) ≡ (if b then later else now) =
      λ b. ap (λ b. if b then later else now) in
    elim (Bool-cases f.used) [
      | inl used ↦ subst (Returns (Created (f ∷ fs) t)) (sym (slot true used)) (
          Returns-map (Option.map (◌∷◌ f)) (use_slot-Created fs t r table ht short (ground arith))
            λ o. Created-tail f fs t o v used (ground arith))
      | inr free ↦ subst (Returns (Created (f ∷ fs) t)) (sym (slot false free)) (
          Maybe.bind (fill_slot-named f t r v ht short) λ g (vg, used, named, empty). returns (
            rw free refl,
            subst (λ n. Updated (f ∷ fs) t (take n g.bytes) (g ∷ fs)) empty
                (head-Updated f g fs t ht vg table used named λ u hu ne. rw free refl),
          ))
    ]
