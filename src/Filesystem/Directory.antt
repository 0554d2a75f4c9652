-- ===== src/Filesystem/Directory.antt =====
-- What the table of kernel/filesystem.cpp stands for: a directory from names to contents.
use first_os_build.Prelude.{
  ◌≤◌, ◌≡◌, ◌≢◌, ◌⊎◌, refl, Bool, true, false, ◌&&◌, Option, none, some, List, [], ◌∷◌, ◌++◌, Bytes,
  ◌==◌, if◌then◌else◌, length, take, All, arith, inl, inr, Returns, returns, is_zero, Bool-cases,
  ap,
}
use first_os_build.Prelude.Maybe
use first_os_build.CString.{strcmp}
use first_os_build.CString.Compare.{IsText, is_zero-sub_ne}
use first_os_build.Filesystem.{File, is_named}

-- The object holds the text and its terminator.
unfoldable pub text_is : Bytes → Bytes → Bool
text_is [] t = false
text_is (c ∷ o) [] = c == 0
text_is (c ∷ o) (d ∷ t) = c == d && text_is o t

-- The bytes of the file of a name.
unfoldable pub contents : List File → Bytes → Option Bytes
contents [] t = none
contents (f ∷ fs) t =
    if f.used && text_is f.name t then some (take f.size f.bytes) else contents fs t

-- Some slot is unused.
unfoldable pub has_room : List File → Bool
has_room [] = false
has_room (f ∷ fs) = if f.used then has_room fs else true

abbrev pub Terminated : Bytes → Type 0
Terminated [] = ⊥
Terminated (c ∷ o) = (c ≡ 0) ⊎ Terminated o

pub record IsFile (f : File) : Type 0 where
  pub name_size : length f.name ≡ 32
  pub bytes_size : length f.bytes ≡ 4096
  pub size_in : f.size ≤ 4096
  pub named : f.used ≡ true → Terminated f.name

-- The directory `fs'` is `fs` with the contents `cs` under the name `t`.
pub record Updated (fs : List File) (t cs : Bytes) (fs' : List File) : Type 0 where
  pub table : All IsFile fs'
  pub here : contents fs' t ≡ some cs
  pub others : (u : Bytes) → IsText u → u ≢ t → contents fs' u ≡ contents fs u

pub text_is_unique :
    (o t u : Bytes) → IsText t → IsText u → text_is o t ≡ true → text_is o u ≡ true → t ≡ u
unfolding text_is
text_is_unique [] t u ht hu et eu = absurd (ground arith)
text_is_unique (c ∷ o) [] [] ht hu et eu = refl
text_is_unique (c ∷ o) [] (d ∷ u) ht hu et eu = absurd (ground (arith, hu.0))
text_is_unique (c ∷ o) (d ∷ t) [] ht hu et eu = absurd (ground (arith, ht.0))
text_is_unique (c ∷ o) (d ∷ t) (d' ∷ u) ht hu et eu = ground (arith, text_is_unique o t u ht.1 hu.1)

pub text_is-append : (t r : Bytes) → text_is (t ++ 0 ∷ r) t ≡ true
unfolding text_is
text_is-append [] r = refl
text_is-append (c ∷ t) r = ground (arith, text_is-append t r)

pub append-Terminated : (t r : Bytes) → Terminated (t ++ 0 ∷ r)
append-Terminated [] r = inl refl
append-Terminated (c ∷ t) r = inr (append-Terminated t r)

strcmp-text_is :
    (o t r : Bytes)
    → Terminated o
    → IsText t
    → Returns (λ d. is_zero d ≡ text_is o t) (strcmp o (t ++ 0 ∷ r))
unfolding strcmp text_is
strcmp-text_is [] t r term ht = absurd term
strcmp-text_is (x ∷ o) [] r term ht = elim (Bool-cases (x == 0)) [
  | inl e ↦ let zero_byte : x ≡ 0 = ground arith in rw zero_byte (returns refl)
  | inr e ↦ rw e (returns (is_zero-sub_ne x 0 (ground arith)))
]
strcmp-text_is (x ∷ o) (y ∷ t) r term (ny, ht) = elim (Bool-cases (x == y)) [
  | inl e ↦
      let more : (x == 0) ≡ false = ground arith in
      rw (more, e)
        (strcmp-text_is o t r (elim term [ inl z ↦ absurd (ground arith) | inr on ↦ on ]) ht)
  | inr e ↦ elim (Bool-cases (x == 0)) [
    | inl z ↦ rw (z, e) (returns (is_zero-sub_ne x y (ground arith)))
    | inr nz ↦ rw (nz, e) (returns (is_zero-sub_ne x y (ground arith)))
  ]
]

-- The test of a slot never fails, and asks for the text of the name.
pub is_named-eq :
    (f : File) (t r : Bytes)
    → IsFile f
    → IsText t
    → is_named f (t ++ 0 ∷ r) ≡ some (f.used && text_is f.name t)
unfolding is_named
is_named-eq f t r v ht = elim (Bool-cases f.used) [
  | inl used ↦ rw used (
      let (d, eq, same) = Maybe.to_sigma (strcmp-text_is f.name t r (v.named used) ht) in
      rw eq (ap some same))
  | inr unused ↦ rw unused refl
]
