-- ===== src/Microwire/Protocol.antt =====
-- The lines that the board drives: sequences of calls of `set_chip_select` and
-- `notify_port_b_clock`, and the host's way of clocking bits in.
use coin_line_emu.Base.{ℕ, zero, suc, ◌/◌, Bool, false, List, [], ◌∷◌, ◌++◌, is_odd}
use coin_line_emu.Microwire.{Chip, Call, set_chip_select, notify_port_b_clock}

pub data Input : Type 0 where
  select : Bool → Input
  port_b : ℕ → ℕ → Bool → Input

unfoldable pub apply : Input → Chip → Chip × List Call
apply (select b) c = set_chip_select b c
apply (port_b prev_b new_b di) c = notify_port_b_clock prev_b new_b di c

unfoldable pub run : List Input → Chip → Chip × List Call
run [] c = (c, [])
run (i ∷ is) c =
    let (c', calls) = apply i c in let (last, more) = run is c' in (last, calls ++ more)

-- SK low, high and low again with DI held.
abbrev pub pulse : Bool → List Input
pulse di = port_b 0x00 0x80 di ∷ port_b 0x80 0x00 di ∷ []

abbrev pub pulses : List Bool → List Input
pulses [] = []
pulses (b ∷ bs) = pulse b ++ pulses bs

-- The `n` low bits of a number, the highest first.
abbrev pub bits : ℕ → ℕ → List Bool
bits zero v = []
bits (suc n) v = bits n (v / 2) ++ is_odd v ∷ []

-- The host's read loop: each round samples DO and then pulses SK.
unfoldable pub read_loop : ℕ → Chip → List Bool × Chip × List Call
read_loop zero c = ([], c, [])
read_loop (suc n) c =
    let (c', calls) = run (pulse false) c in
    let (samples, last, more) = read_loop n c' in (c.data_out ∷ samples, last, calls ++ more)
