-- ===== src/Keyboard/Clear.antt =====
-- kernel/keyboard.cpp: `keyboard_clear_buffer`, which stores first `buffer_end` and then `buffer_start`, with
-- keys that are pressed between its two stores.
use first_os_build.Prelude.{
  ℕ, zero, suc, ◌+◌, ◌-◌, ◌%◌, ◌<◌, ◌≡◌, refl, Bytes, [], ◌∷◌, ◌++◌, take, arith, ◌==◌, Bool-cases,
  inl, inr, set, length-set, append-nil, append_assoc, ap, ◌∙◌, sym,
}
use first_os_build.Keyboard.{Keyboard, add_char, keyboard_clear_buffer}
use first_os_build.Keyboard.Ring.{
  IsValid, pending, pending-set, contents, add_char-full, add_char-room,
}

-- The two stores.
unfoldable pub clear_end : Keyboard → Keyboard
clear_end k = record k { buffer_end = 0 }

unfoldable pub clear_start : Keyboard → Keyboard
clear_start k = record k { buffer_start = 0 }

clear-stores : (k : Keyboard) → clear_start (clear_end k) ≡ keyboard_clear_buffer k
unfolding clear_start clear_end keyboard_clear_buffer
clear-stores k = refl

unfoldable pub add_chars : Bytes → Keyboard → Keyboard
add_chars [] k = k
add_chars (c ∷ cs) k = add_chars cs (add_char c k)

take-nil : (n : ℕ) (xs : Bytes) → xs ++ take {A = ℕ} n [] ≡ xs
take-nil zero xs = append-nil xs
take-nil (suc n) xs = append-nil xs

add_chars-clear :
    (cs : Bytes) (k : Keyboard)
    → IsValid k
    → k.buffer_end < k.buffer_start
    → contents (clear_start (add_chars cs k))
      ≡ pending k.keyboard_buffer 0 k.buffer_end ++ take (k.buffer_start - 1 - k.buffer_end) cs
unfolding add_chars clear_start
add_chars-clear [] k v below =
    let n : (k.buffer_end + 256 - 0) % 256 ≡ k.buffer_end = omega arith in
    ap (pending k.keyboard_buffer 0) n
    ∙ sym (take-nil (k.buffer_start - 1 - k.buffer_end) (pending k.keyboard_buffer 0 k.buffer_end))
add_chars-clear (c ∷ cs) k v below =
    let e : ℕ = k.buffer_end in
    elim (Bool-cases (suc e == k.buffer_start)) [
      | inl full ↦
          let none_fit : k.buffer_start - 1 - e ≡ 0 = ground arith in
          let kept : add_char c k ≡ k = add_char-full v c (ground arith) in
          ap (λ (q : Keyboard). contents (clear_start (add_chars cs q))) kept
          ∙ add_chars-clear cs k v below
          ∙ rw none_fit refl
      | inr room ↦
          let one_fits : k.buffer_start - 1 - e ≡ suc (k.buffer_start - 1 - suc e) = ground arith in
          let next : (e + 1) % 256 ≡ suc e = omega arith in
          let k' : Keyboard = record k {
            keyboard_buffer = set k.keyboard_buffer e c;
            buffer_end = suc e;
          } in
          let rest : Bytes = take (k.buffer_start - 1 - suc e) cs in
          let typed : add_char c k ≡ k' = add_char-room v c (ground arith) ∙ rw next refl in
          ap (λ (q : Keyboard). contents (clear_start (add_chars cs q))) typed
          ∙ add_chars-clear cs k'
              (record {
                storage = length-set k.keyboard_buffer e c ∙ v.storage;
                start_in = v.start_in;
                end_in = omega (arith, v.end_in);
              })
              (ground arith)
          ∙ rw one_fits (
              ap (λ cs'. cs' ++ rest)
                (pending-set k.keyboard_buffer c 0 e e v.storage (omega arith) (omega arith)
                  (omega arith))
              ∙ append_assoc (pending k.keyboard_buffer 0 e) (c ∷ []) rest)
    ]

-- Characters that are typed between the two stores, in a valid driver state whose index `buffer_start` is
-- not 0: those that stay are the first ones, one less than `buffer_start`, and the others are lost, while
-- an empty ring has room for 255.
pub clear_race :
    (cs : Bytes) {k : Keyboard}
    → IsValid k
    → 0 < k.buffer_start
    → contents (clear_start (add_chars cs (clear_end k))) ≡ take (k.buffer_start - 1) cs
unfolding clear_end
clear_race cs {k} v some_start =
    add_chars-clear cs (record k { buffer_end = 0 })
      (record { storage = v.storage; start_in = v.start_in; end_in = omega arith }) some_start
    ∙ ap (λ n. take n cs) (omega arith)
