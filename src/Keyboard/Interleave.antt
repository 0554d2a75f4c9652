-- ===== src/Keyboard/Interleave.antt =====
-- kernel/keyboard.cpp: an interrupt may come between any two accesses of the ring.
use first_os_build.Prelude.{
  Bool-cases, inl, inr, ℕ, ◌<◌, ◌≡◌, ◌≢◌, refl, ap, not, [], ◌∷◌, ◌++◌, ◌==◌, get_or, get_or-set_ne,
  arith, sym, ◌∙◌, subst,
}
use first_os_build.Keyboard.{
  Keyboard, add_char, to_char, keyboard_handler, keyboard_getchar, keyboard_available,
}
use first_os_build.Keyboard.Queue
use first_os_build.Keyboard.Queue.{
  Queue, Event, scan, getchar, available, Reply, nothing, char, flag,
}
use first_os_build.Keyboard.Reader.{
  Reader, idle, compares, found, holds, checks, Trace, Call, wants_char, wants_flag, access, Move,
  accesses, interrupt, Moves, done, next,
}
use first_os_build.Keyboard.Refine.{abstract_of, step, step-IsValid, IsByteEvent, step_refines}
use first_os_build.Keyboard.Ring.{IsValid}

-- The queue gives the replies of the trace, in its order, and goes from the one state to the other.
abbrev pub Explains : Trace → Queue → Queue → Type 0
Explains [] q q' = q ≡ q'
Explains ((e, r) ∷ t) q q' = ((Queue.step e q).0 ≡ r) × Explains t (Queue.step e q).1 q'

pub Explains-append :
    (t u : Trace) (q q' q'' : Queue) → Explains t q q' → Explains u q' q'' → Explains (t ++ u) q q''
Explains-append [] u q q' q'' h h' = subst (λ p. Explains u p q'') (sym h) h'
Explains-append ((e, r) ∷ t) u q q' q'' (same, h) h' =
    (same, Explains-append t u (Queue.step e q).1 q' q'' h h')

-- What the reader knows of the ring, whatever the interrupts do.
abbrev pub Knows : Reader → Keyboard → Type 0
Knows idle k = Unit {0}
Knows (compares s) k = s ≡ k.buffer_start
Knows found k = k.buffer_start ≢ k.buffer_end
Knows (holds c) k =
    (k.buffer_start ≢ k.buffer_end) × (c ≡ get_or k.keyboard_buffer k.buffer_start 0)
Knows (checks s) k = s ≡ k.buffer_start

-- What an interrupt may do to the ring: the reader's index stays, and a character that waits still does.
abbrev pub Undisturbed : Keyboard → Keyboard → Type 0
Undisturbed k k' =
    (k'.buffer_start ≡ k.buffer_start)
    × (k.buffer_start ≢ k.buffer_end
        → (k'.buffer_start ≢ k'.buffer_end)
          × (get_or k'.keyboard_buffer k.buffer_start 0
              ≡ get_or k.keyboard_buffer k.buffer_start 0))

add_char-Undisturbed : (c : ℕ) (k : Keyboard) → Undisturbed k (add_char c k)
unfolding add_char
add_char-Undisturbed c k = (
  ground arith,
  λ ne. (
    ground arith,
    ground (arith, get_or-set_ne k.keyboard_buffer {i = k.buffer_end} {j = k.buffer_start} c 0),
  ),
)

handler-Undisturbed : (s : ℕ) (k : Keyboard) → Undisturbed k (keyboard_handler s k)
unfolding keyboard_handler
handler-Undisturbed s k =
    let typed = add_char-Undisturbed (to_char s k.shift_pressed k.caps_lock) k in
    (ground (arith, typed.0), λ ne. (ground (arith, typed.1 ne), ground (arith, typed.1 ne)))

Undisturbed-Knows : (r : Reader) (k k' : Keyboard) → Undisturbed k k' → Knows r k → Knows r k'
Undisturbed-Knows idle k k' (same, kept) h = tt
Undisturbed-Knows (compares s) k k' (same, kept) h = h ∙ sym same
Undisturbed-Knows found k k' (same, kept) h = (kept h).0
Undisturbed-Knows (holds c) k k' (same, kept) (ne, h) =
    ((kept ne).0, h ∙ sym (kept ne).1 ∙ ap (λ i. get_or k'.keyboard_buffer i 0) (sym same))
Undisturbed-Knows (checks s) k k' (same, kept) h = h ∙ sym same

-- A whole event of the driver, as the queue sees it.
atomic :
    (e : Event) (r : Reply) {k k' : Keyboard}
    → IsByteEvent e
    → IsValid k
    → step e k ≡ (r, k')
    → IsValid k' × Explains ((e, r) ∷ []) (abstract_of k) (abstract_of k')
atomic e r {k} {k'} b v same =
    let queue = step_refines e b v in
    (
      subst (λ p. IsValid p.1) same (step-IsValid e v),
      (
        ap (λ p. p.0) (sym queue) ∙ ap (λ p. p.0) same,
        ap (λ p. p.1) (sym queue) ∙ ap (λ p. abstract_of p.1) same,
      ),
    )

-- What one access does to the driver, and to the queue.
abbrev pub Sound : Keyboard → Trace × Reader × Keyboard → Type 0
Sound k (t, r', k') = IsValid k' × Knows r' k' × Explains t (abstract_of k) (abstract_of k')

pub access-Sound :
    (call : Call) (r : Reader) {k : Keyboard} → IsValid k → Knows r k → Sound k (access call r k)
unfolding access step keyboard_getchar keyboard_available
access-Sound wants_char idle v h = (v, refl, refl)
access-Sound wants_flag idle v h = (v, refl, refl)
access-Sound call (compares s) {k} v h = elim (Bool-cases (s == k.buffer_end)) [
  | inl none_left ↦
      let (v', t) = atomic getchar (char 0) {k = k} tt v (ground arith) in rw none_left (v', tt, t)
  | inr some_left ↦ rw some_left (v, ground arith, refl)
]
access-Sound call found v h = (v, (h, refl), refl)
access-Sound call (holds c) {k} v (ne, e) =
    let (v', t) = atomic getchar (char c) {k = k} tt v (ground arith) in (v', tt, t)
access-Sound call (checks s) {k} v h =
    let (v', t) = atomic available (flag (not (s == k.buffer_end))) {k = k} tt v (ground arith) in
    (v', tt, t)

pub interrupt-Sound :
    (s : ℕ) (r : Reader) {k : Keyboard}
    → s < 256
    → IsValid k
    → Knows r k
    → Sound k ((scan s, nothing) ∷ [], r, keyboard_handler s k)
unfolding step
interrupt-Sound s r {k} b v h =
    let (v', t) = atomic (scan s) nothing {k = k} b v refl in
    (v', Undisturbed-Knows r k (keyboard_handler s k) (handler-Undisturbed s k) h, t)

Move-Sound :
    {k : Keyboard} {r : Reader} {t : Trace} {r' : Reader} {k' : Keyboard}
    → Move k r t r' k'
    → IsValid k
    → Knows r k
    → Sound k (t, r', k')
Move-Sound {k} {r} (accesses call e) v h = subst (Sound k) e (access-Sound call r v h)
Move-Sound {r} (interrupt s b) v h = interrupt-Sound s r b v h

Moves-Explains :
    {k : Keyboard} {r : Reader} {k' : Keyboard} {r' : Reader} {t : Trace}
    → Moves k r t r' k'
    → IsValid k
    → Knows r k
    → IsValid k' × Knows r' k' × Explains t (abstract_of k) (abstract_of k')
Moves-Explains done v h = (v, h, refl)
Moves-Explains {k} (next {t} {u} {k'} {k''} ms m) v h =
    let (v', h', before) = Moves-Explains ms v h in
    let (v'', h'', last) = Move-Sound m v' h' in
    (v'', h'', Explains-append t u (abstract_of k) (abstract_of k') (abstract_of k'') before last)

-- From a valid driver state and no call under way, with interrupts of byte scancodes between any two
-- accesses of the ring by `keyboard_getchar` and `keyboard_available`: the replies are those of a
-- first-in first-out queue of at most 255 characters to whole interrupts and whole calls, each call at
-- its last access. The driver state stays valid, and holds the characters of the queue.
pub reader_refines :
    {k k' : Keyboard} {r : Reader} {t : Trace}
    → Moves k idle t r k'
    → IsValid k
    → IsValid k' × Explains t (abstract_of k) (abstract_of k')
reader_refines ms v = let (v', h, t) = Moves-Explains ms v tt in (v', t)

-- Left alone, the accesses of a call are the call.
pub getchar-Moves :
    (k : Keyboard)
    → let (c, k') = keyboard_getchar k in Moves k idle ((getchar, char c) ∷ []) idle k'
unfolding keyboard_getchar access
getchar-Moves k = elim (Bool-cases (k.buffer_start == k.buffer_end)) [
  | inl same ↦ rw same (next (next done (accesses wants_char refl)) (accesses wants_char (rw same)))
  | inr other ↦
      let goes_on : access wants_char (compares k.buffer_start) k ≡ ([], found, k) = rw other in
      rw other (
        next
          (next (next (next done (accesses wants_char refl)) (accesses wants_char goes_on))
            (accesses wants_char refl))
          (accesses wants_char refl))
]

pub available-Moves :
    (k : Keyboard) → Moves k idle ((available, flag (keyboard_available k)) ∷ []) idle k
unfolding keyboard_available access
available-Moves k = next (next done (accesses wants_flag refl)) (accesses wants_flag refl)
