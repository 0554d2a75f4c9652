-- ===== src/Filesystem/Slots.antt =====
-- kernel/filesystem.cpp: what one slot of the table becomes.
use mathlib.Core.Option
use first_os_build.Prelude.{
  ℕ, zero, suc, ◌≤◌, ◌≡◌, ◌≢◌, refl, true, false, ◌&&◌, Option, none, some, List, [], ◌∷◌, ◌++◌,
  Bytes, length, length-append, length-take, length-drop, take, drop, All, arith, inl, inr, Returns,
  returns, Bool-cases, is_some, ap, subst,
}
use first_os_build.CString.Compare.{IsText}
use first_os_build.CString.Copy.{copy_bytes-take}
use first_os_build.Filesystem.{File, write_slot}
use first_os_build.Filesystem.Directory.{
  contents, text_is, text_is_unique, IsFile, Updated, is_named-eq,
}

-- A slot whose file is replaced by one of the name `t`: at the first slot of that name, or at an
-- unused one before which the name does not stand.
pub head-Updated :
    (f g : File) (fs : List File) (t : Bytes)
    → IsText t
    → IsFile g
    → All IsFile fs
    → g.used ≡ true
    → text_is g.name t ≡ true
    → ((u : Bytes) → IsText u → u ≢ t → (f.used && text_is f.name u) ≡ false)
    → Updated (f ∷ fs) t (take g.size g.bytes) (g ∷ fs)
unfolding contents
head-Updated f g fs t ht v table used named gone = record {
  table = (v, table);
  here = rw (used, named) refl;
  others = λ u hu ne.
      let no_more : text_is g.name u ≡ false = elim (Bool-cases (text_is g.name u)) [
        | inl same ↦ absurd (ne (text_is_unique g.name u t hu ht same named))
        | inr other ↦ other
      ] in
      rw (used, no_more, gone u hu ne) refl;
}

pub tail-Updated :
    (f : File) (fs fs' : List File) (t cs : Bytes)
    → IsFile f
    → (f.used && text_is f.name t) ≡ false
    → Updated fs t cs fs'
    → Updated (f ∷ fs) t cs (f ∷ fs')
unfolding contents
tail-Updated f fs fs' t cs v other up = record {
  table = (v, up.table);
  here = rw other up.here;
  others = λ u hu ne. elim (Bool-cases (f.used && text_is f.name u)) [
    | inl same ↦ rw same refl
    | inr other_name ↦ rw other_name (up.others u hu ne)
  ];
}

-- What the loop over the files of a name leaves: the new table, or none if there is no such name.
abbrev pub Rewritten : List File → Bytes → Bytes → Option (List File) → Type 0
Rewritten fs t cs none = contents fs t ≡ none
Rewritten fs t cs (some fs') = (is_some (contents fs t) ≡ true) × Updated fs t cs fs'

Rewritten-tail :
    (f : File) (fs : List File) (t cs : Bytes) (o : Option (List File))
    → IsFile f
    → (f.used && text_is f.name t) ≡ false
    → Rewritten fs t cs o
    → Rewritten (f ∷ fs) t cs (Option.map (◌∷◌ f) o)
unfolding contents
Rewritten-tail f fs t cs none v other r = rw other r
Rewritten-tail f fs t cs (some fs') v other (here, up) =
    (rw other here, tail-Updated f fs fs' t cs v other up)

pub Returns-map {ℓ κ κ'} :
    {A : Type ℓ} {B : Type ℓ} {P : A → Type κ} {Q : B → Type κ'} {m : Option A} (g : A → B)
    → Returns P m
    → ((a : A) → P a → Q (g a))
    → Returns Q (Option.map g m)
Returns-map g (returns p) next = returns (next _ p)

take_copied : (n : ℕ) (xs ys : Bytes) → n ≤ length xs → take n (take n xs ++ ys) ≡ take n xs
take_copied zero xs ys h = refl
take_copied (suc n) [] ys h = absurd (omega arith)
take_copied (suc n) (x ∷ xs) ys h = ap (◌∷◌ x) (take_copied n xs ys (omega arith))

rewritten :
    (f : File) (fs : List File) (t bytes : Bytes) (size : ℕ)
    → IsFile f
    → All IsFile fs
    → IsText t
    → size ≤ 4096
    → size ≤ length bytes
    → (f.used && text_is f.name t) ≡ true
    → Rewritten
        (f ∷ fs)
        t
        (take size bytes)
        (some (record f { bytes = take size bytes ++ drop size f.bytes; size = size } ∷ fs))
unfolding contents
rewritten f fs t bytes size v table ht small room same =
    let g : File = record f { bytes = take size bytes ++ drop size f.bytes; size = size } in
    let used : f.used ≡ true = ground arith in
    let named : text_is f.name t ≡ true = ground arith in
    let stored : IsFile g = record {
      name_size = v.name_size;
      bytes_size = omega (
        arith,
        length-append (take size bytes) (drop size f.bytes),
        length-take size bytes,
        length-drop size f.bytes,
        v.bytes_size,
      );
      size_in = small;
      named = v.named;
    } in
    let gone : (u : Bytes) → IsText u → u ≢ t → (f.used && text_is f.name u) ≡ false = λ u hu ne.
      elim (Bool-cases (text_is f.name u)) [
        | inl again ↦ absurd (ne (text_is_unique f.name u t hu ht again named))
        | inr other ↦ rw (used, other) refl
      ] in
    (
      rw same refl,
      subst (λ cs. Updated (f ∷ fs) t cs (g ∷ fs)) (take_copied size bytes (drop size f.bytes) room)
          (head-Updated f g fs t ht stored table used named gone),
    )

pub write_slot-Rewritten :
    (fs : List File) (t r bytes : Bytes) (size : ℕ)
    → All IsFile fs
    → IsText t
    → size ≤ 4096
    → size ≤ length bytes
    → Returns (Rewritten fs t (take size bytes)) (write_slot fs (t ++ 0 ∷ r) bytes size)
unfolding write_slot contents
write_slot-Rewritten [] t r bytes size table ht small room = returns refl
write_slot-Rewritten (f ∷ fs) t r bytes size (v, table) ht small room =
    elim (Bool-cases (f.used && text_is f.name t)) [
      | inl same ↦
          rw
            (
              is_named-eq f t r v ht,
              same,
              copy_bytes-take size bytes f.bytes room (omega (arith, v.bytes_size)),
            )
            (returns (rewritten f fs t bytes size v table ht small room same))
      | inr other ↦
          rw (is_named-eq f t r v ht, other)
            (Returns-map (Option.map (◌∷◌ f))
              (write_slot-Rewritten fs t r bytes size table ht small room)
              λ o. Rewritten-tail f fs t (take size bytes) o v other)
    ]
