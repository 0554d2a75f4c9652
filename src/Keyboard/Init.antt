-- ===== src/Keyboard/Init.antt =====
-- kernel/keyboard.cpp: the dialogue with the keyboard controller. The two busy-waiting loops run
-- on fuel, the number of reads of the status port that they may take.
use first_os_build.Prelude.{
  ℕ, zero, suc, ◌≡◌, refl, true, false, not, Option, none, some, arith, Bool-cases, Option-cases,
  inl, inr, bit_and, ◌==◌, if◌then◌else◌, ◌>>=◌,
}
use first_os_build.Prelude.Maybe.{Ensures, fails, ensures, ensured}
use first_os_build.Ports.{Ports}
use first_os_build.Keyboard.{Keyboard}

abbrev pub keyboard_data_port : ℕ
keyboard_data_port = 0x60

abbrev pub keyboard_status_port : ℕ
keyboard_status_port = 0x64

abbrev pub keyboard_command_port : ℕ
keyboard_command_port = 0x64

abbrev pub keyboard_cmd_enable : ℕ
keyboard_cmd_enable = 0xF4

abbrev pub keyboard_cmd_reset : ℕ
keyboard_cmd_reset = 0xFF

-- What a successful dialogue leaves: no characters, no modifiers.
abbrev pub cleared : Keyboard → Keyboard
cleared k = record k { buffer_start = 0; buffer_end = 0; shift_pressed = false; caps_lock = false }

module _ (p : Ports) where
  open p use {Dev, inb, outb}

  -- `while (inb(KEYBOARD_STATUS_PORT) & 2);`
  unfoldable pub keyboard_wait_input : ℕ → Dev → Option Dev
  keyboard_wait_input zero d = none
  keyboard_wait_input (suc fuel) d =
      let (status, d') = inb keyboard_status_port d in
      elim (bit_and status 2 == 0) [ true ↦ some d' | false ↦ keyboard_wait_input fuel d' ]

  -- `while (!(inb(KEYBOARD_STATUS_PORT) & 1));`
  unfoldable pub keyboard_wait_output : ℕ → Dev → Option Dev
  keyboard_wait_output zero d = none
  keyboard_wait_output (suc fuel) d =
      let (status, d') = inb keyboard_status_port d in
      elim (bit_and status 1 == 0) [ true ↦ keyboard_wait_output fuel d' | false ↦ some d' ]

  unfoldable pub keyboard_send_cmd : ℕ → ℕ → Dev → Option Dev
  keyboard_send_cmd fuel cmd d = do
    d' ← keyboard_wait_input fuel d
    some (outb keyboard_command_port cmd d')

  unfoldable pub keyboard_read_data : ℕ → Dev → Option (ℕ × Dev)
  keyboard_read_data fuel d = do d' ← keyboard_wait_output fuel d; some (inb keyboard_data_port d')

  unfoldable pub keyboard_init : ℕ → Keyboard → Dev → Option (Keyboard × Dev)
  keyboard_init fuel k d = do
    d ← keyboard_send_cmd fuel keyboard_cmd_reset d
    (reply, d) ← keyboard_read_data fuel d
    if not (reply == 0xFA) then some (k, d) else do
      d ← keyboard_send_cmd fuel keyboard_cmd_enable d
      (reply, d) ← keyboard_read_data fuel d
      if not (reply == 0xFA) then some (k, d) else some (cleared k, d)

module _ (p : Ports) where
  open p use {Dev, inb, outb}

  -- A controller while no key is pressed, in its states `at`: bit 0 of its status is clear, since no byte waits
  -- to be read; reading the status, and the command 0xFF at port 0x64, leave it so. Of the 8042 that is documented: the
  -- commands from 0xF0 to 0xFF pulse those output lines whose bits are 0, with no answer.
  pub record IsQuiet (at : Dev → Type 0) : Type 0 where
    pub empty : (d : Dev) → at d → bit_and (inb keyboard_status_port d).0 1 ≡ 0
    pub polled : (d : Dev) → at d → at (inb keyboard_status_port d).1
    pub pulsed : (d : Dev) → at d → at (outb keyboard_command_port keyboard_cmd_reset d)

  module _ (at : Dev → Type 0) (q : IsQuiet at) where
    output_never : (fuel : ℕ) (d : Dev) → at d → keyboard_wait_output p fuel d ≡ none
    unfolding keyboard_wait_output
    output_never zero d h = refl
    output_never (suc fuel) d h =
        ground (arith, q.empty d h, output_never fuel (inb keyboard_status_port d).1 (q.polled d h))

    input_quiet : (fuel : ℕ) (d : Dev) → at d → Ensures at (keyboard_wait_input p fuel d)
    unfolding keyboard_wait_input
    input_quiet zero d h = fails
    input_quiet (suc fuel) d h = elim (Bool-cases (bit_and (inb keyboard_status_port d).0 2 == 0)) [
      | inl ready ↦ rw (keyboard_wait_input, ready) (ensures (q.polled d h))
      | inr busy ↦
          rw (keyboard_wait_input, busy)
            (input_quiet fuel (inb keyboard_status_port d).1 (q.polled d h))
    ]

    -- While no byte waits to be read and no key is pressed, before a controller that, as the 8042, has no
    -- answer to the command 0xFF: `keyboard_init` never ends, however often it polls, since it sends the reset of the
    -- keyboard to the controller's own command port and waits for the answer.
    pub init-unanswered :
        (fuel : ℕ) (k : Keyboard) (d : Dev) → at d → keyboard_init p fuel k d ≡ none
    unfolding keyboard_init keyboard_send_cmd keyboard_read_data
    init-unanswered fuel k d h = elim (Option-cases (keyboard_wait_input p fuel d)) [
      | inl never ↦ rw never refl
      | inr (d', ready) ↦
          rw
            (
              ready,
              output_never fuel (outb keyboard_command_port keyboard_cmd_reset d')
                  (q.pulsed d' (ensured (input_quiet fuel d h) ready)),
            )
            refl
    ]
