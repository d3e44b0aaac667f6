-- ===== src/Examples/Lines.antt =====
-- The line supervision and the coin validator.
use coin_line_emu.Base.{ℕ, ◌+◌, ◌≤◌, ◌≡◌, refl, true, false, List, [], ◌∷◌, arith, bit_of}
use coin_line_emu.Supervision.{
  Fsm, Input, status_input, carrier_input, watchdog_input, new, reset, run, arm_disconnect_timer,
}
use coin_line_emu.Supervision.Once.{disconnects, run-disconnects}
use coin_line_emu.Supervision.Cutoff.{After, ticks, cutoff-After}
use coin_line_emu.Coin.{Coin, reset as reset_coin, new as new_coin, collect_escrow, reset_fault}
use coin_line_emu.Base.Int.{pos}
use coin_line_emu.Coin.Escrow.{
  Op, insert, command, run as run_coin, total, settled, accepted, held, settled-le-accepted,
  run-closed, by_disable, control, jam,
}

abbrev call : List Input
call =
    carrier_input true 1 0
    ∷ status_input 0x66 2 0
    ∷ status_input 0x64 3 0
    ∷ carrier_input false 4 0
    ∷ watchdog_input 5 0
    ∷ []

run-disconnects_example :
    let r = run call (reset new) in disconnects r.1 ≡ bit_of r.0.disconnect_emitted
run-disconnects_example = run-disconnects call new

abbrev timed : Fsm
timed = record new { windows = record { cutoff_ticks = 3; wink_ticks = 2; defer_ticks = 0 } }

abbrev three_ticks : List (ℕ × ℕ)
three_ticks = (1, 0) ∷ (2, 0) ∷ (3, 0) ∷ []

cutoff-After_example :
    After 0 timed.windows three_ticks (run (ticks three_ticks) (arm_disconnect_timer timed))
cutoff-After_example = cutoff-After three_ticks timed refl (omega arith) (omega arith)

abbrev reversed : List (ℕ × ℕ × ℕ)
reversed = (0x68, 1, 0) ∷ (0x60, 2, 0) ∷ (0x6a, 3, 0) ∷ []

abbrev purchase : List Op
purchase = insert (pos 25) 100 12288000 ∷ command collect_escrow ∷ command collect_escrow ∷ []

settled-le-accepted_example :
    total settled purchase (reset_coin new_coin) + held (run_coin purchase (reset_coin new_coin))
    ≤ total accepted purchase (reset_coin new_coin)
settled-le-accepted_example = settled-le-accepted purchase new_coin

abbrev jammed : Coin
jammed = record new_coin { jam_latched = true }

-- A quarter on a 12.288 MHz board: five pulses of 4200 cycles, 4200 cycles apart.
abbrev quarter : Coin
quarter = record new_coin { emitting = true; pulse_target = 5; train_start_cycle = 1000 }

abbrev shut_off : List Op
shut_off =
    insert (pos 25) 100 12288000
    ∷ command collect_escrow
    ∷ control 0x01
    ∷ jam
    ∷ command reset_fault
    ∷ []

run-closed_example :
    let m = record new_coin { disabled = true } in
    ((run_coin shut_off m).disabled ≡ true) × (total accepted shut_off m ≡ 0)
run-closed_example =
    run-closed by_disable shut_off (record new_coin { disabled = true })
      (refl, (refl, (refl, (refl, (refl, tt))))) refl
