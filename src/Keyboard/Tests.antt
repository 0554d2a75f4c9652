-- ===== src/Keyboard/Tests.antt =====
-- The keyboard driver at concrete inputs.
use first_os_build.Prelude.{
  ℕ, ◌+◌, none, take, ◌++◌, ◌-◌, ◌≡◌, refl, true, false, List, [], ◌∷◌, arith, replicate, All,
}
use first_os_build.Keyboard.{
  Keyboard, to_char, keyboard_handler, keyboard_getchar, keyboard_available, add_char,
}
use first_os_build.Keyboard.Init.{keyboard_init, init-unanswered}
use first_os_build.Ports.{Ports}
use first_os_build.Keyboard.Clear.{clear_end, clear_start, add_chars, clear_race}
use first_os_build.Keyboard.Interleave.{Explains, reader_refines}
use first_os_build.Keyboard.Reader.{
  Moves, idle, done, next, accesses, interrupt, wants_char, access,
}
use first_os_build.Keyboard.Layout.{Typable, IsTyped, to_char-Typable, run-IsTyped}
use first_os_build.Keyboard.Queue
use first_os_build.Keyboard.Queue.{
  Event, scan, getchar, available, clear, Reply, nothing, char, flag,
}
use first_os_build.Keyboard.Ring.{IsValid, contents}
use first_os_build.Keyboard.Refine.{run, run_refines, step-IsValid, abstract_of, step}

-- The driver as the kernel is loaded.
abbrev boot_keyboard : Keyboard
boot_keyboard = record {
  keyboard_buffer = replicate 256 0;
  buffer_start = 0;
  buffer_end = 0;
  shift_pressed = false;
  caps_lock = false;
}

boot-IsValid : IsValid boot_keyboard
boot-IsValid = record { storage = refl; start_in = omega arith; end_in = omega arith }

-- Shift down, A, shift up, A, then three reads.
abbrev script : List Event
script =
    scan 0x2A ∷ scan 0x1E ∷ scan 0xAA ∷ scan 0x1E ∷ getchar ∷ available ∷ getchar ∷ getchar ∷ []

typed_script :
    run script boot_keyboard
    ≡ nothing ∷ nothing ∷ nothing ∷ nothing ∷ char b'A' ∷ flag true ∷ char b'a' ∷ char 0 ∷ []
unfolding run keyboard_handler keyboard_getchar keyboard_available to_char add_char
typed_script = refl

run_refines_example : run script boot_keyboard ≡ Queue.run script (abstract_of boot_keyboard)
run_refines_example = run_refines script (omega arith) boot-IsValid

step-IsValid_example : IsValid (step (scan 0x1E) boot_keyboard).1
step-IsValid_example = step-IsValid (scan 0x1E) boot-IsValid

run-IsTyped_example : All IsTyped (run script boot_keyboard)
run-IsTyped_example = run-IsTyped script (omega arith) boot-IsValid tt

to_char-Typable_example : Typable (to_char 0x1E true false)
unfolding to_char
to_char-Typable_example = to_char-Typable 0x1E true false (omega arith) (omega arith)

-- "h" waits; "a" is typed while a read of "h" is under way.
abbrev one_waits : Keyboard
one_waits = record boot_keyboard { keyboard_buffer = b'h' ∷ replicate 255 0; buffer_end = 1 }

one_waits-IsValid : IsValid one_waits
one_waits-IsValid = record { storage = refl; start_in = omega arith; end_in = omega arith }

abbrev disturbed : Keyboard
disturbed = keyboard_handler 0x1E one_waits

disturbed_read :
    Moves one_waits idle
      ([] ++ [] ++ [] ++ ((scan 0x1E, nothing) ∷ []) ++ ((getchar, char b'h') ∷ []))
      idle
      (record disturbed { buffer_start = 1 })
unfolding access keyboard_handler to_char add_char
disturbed_read =
    next
      (next
        (next (next (next done (accesses wants_char refl)) (accesses wants_char refl))
          (accesses wants_char refl))
        (interrupt 0x1E (omega arith)))
      (accesses wants_char refl)

reader_refines_example :
    IsValid (record disturbed { buffer_start = 1 })
    × Explains
        ([] ++ [] ++ [] ++ ((scan 0x1E, nothing) ∷ []) ++ ((getchar, char b'h') ∷ []))
        (abstract_of one_waits)
        (abstract_of (record disturbed { buffer_start = 1 }))
reader_refines_example = reader_refines disturbed_read one_waits-IsValid

-- Three characters between the two stores of a clear, with `buffer_start` at 2: one stays.
clear_race_example :
    contents (
      clear_start (
        add_chars
          (1 ∷ 2 ∷ 3 ∷ [])
          (clear_end (record boot_keyboard { buffer_start = 2; buffer_end = 2 }))))
    ≡ take (2 - 1) (1 ∷ 2 ∷ 3 ∷ [])
clear_race_example =
    clear_race (1 ∷ 2 ∷ 3 ∷ []) {k = record boot_keyboard { buffer_start = 2; buffer_end = 2 }}
      (record { storage = refl; start_in = omega arith; end_in = omega arith }) (omega arith)

-- A controller that is ready for commands and has no byte; its states count the reads.
abbrev silent : Ports
silent = record { Dev = ℕ; inb = λ port d. (0, d + 1); outb = λ port v d. d }

abbrev AnyState : ℕ → Type 0
AnyState d = Unit

init-unanswered_example : keyboard_init silent 40 boot_keyboard 3 ≡ none
init-unanswered_example =
    init-unanswered silent AnyState
      (record { empty = λ d h. refl; polled = λ d h. tt; pulsed = λ d h. tt }) 40 boot_keyboard 3 tt
