-- ===== src/Examples/Panel.antt =====
-- The keypad and the modem.
use coin_line_emu.Base.{ℕ, ◌^◌, ◌≡◌, not, [], ◌∷◌, arith, tests, ◌++◌, map, length, List, none}
use coin_line_emu.Keypad.{Keypad, new as new_keypad, read_port_a, write_port_b}
use coin_line_emu.Keypad.Matrix.{any_pressed, strobed, read_port_a-strobed}
use coin_line_emu.Modem.{new as new_modem, replay_fixture_text}
use coin_line_emu.Modem.Printing.{print_text}
use coin_line_emu.Modem.Replay.{received, concat, state_behind, replay_fixture_text-print_text}

-- Column 1 is strobed through its high line, and the keys 5 and 6 are pressed.
abbrev strobing : Keypad
unfolding write_port_b
strobing = write_port_b 0xdf 0 new_keypad

read_port_a-strobed_example :
    tests (read_port_a 0x30 0 strobing).1 (2 ^ 1)
    ≡ not (any_pressed 0x30 1 (strobed strobing.port_b_latch))
unfolding strobing
read_port_a-strobed_example = read_port_a-strobed 0x30 0 1 strobing (omega arith) (omega arith)

abbrev two_lines : List (List ℕ)
two_lines = (0x7e ∷ 0x01 ∷ []) ∷ (0xff ∷ []) ∷ []

replay_fixture_text-print_text_example :
    let r = replay_fixture_text (print_text two_lines) new_modem in
    (r.1 ≡ none)
    × (r.0.transcript ≡ new_modem.transcript ++ map received (concat two_lines))
    × (r.0.state ≡ state_behind (length two_lines) new_modem.state)
replay_fixture_text-print_text_example =
    replay_fixture_text-print_text two_lines new_modem
      ((omega arith, (omega arith, (omega arith, tt))), ((omega arith, (omega arith, tt)), tt))
      (omega arith)
