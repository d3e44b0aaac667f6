-- ===== src/Coin.antt =====
-- The coin validator of src/mame/coinline/millennium_coin_model.{h,cpp}: the pulse train, the
-- status byte and the command protocol with its escrow.
pub mod Pulses
pub mod Escrow
use Prim.Native.String.{String}
use text.Mathlib.Text.{◌==◌ as str_eq}
use coin_line_emu.Base.Int.{ℤ, pos, negsuc, int_eq, is_positive, to_u32}
use coin_line_emu.Base.{
  ℕ, zero, suc, ◌+◌, ◌-◌, ◌*◌, ◌/◌, ◌%◌, Bool, true, false, not, ◌&&◌, ◌||◌, List, [], ◌∷◌, bit_or,
  ltb, leb, ◌==◌, if◌then◌else◌, u32, u64, tests,
}

-- `millennium_coin_board_config`
pub record Config : Type 0 where
  pub validator_type : String
  pub denominations_cents : List ℤ
  pub pulse_width_us : ℕ
  pub inter_pulse_gap_us : ℕ

pub record Coin : Type 0 where
  pub cfg : Config
  pub cpu_hz : ℕ
  pub disabled : Bool
  pub jam_latched : Bool
  pub reject_route : Bool
  pub emitting : Bool
  pub pending_cents : ℤ
  pub escrow_cents : ℤ
  pub pulse_target : ℕ
  pub train_start_cycle : ℕ
  pub protocol_timeout_count : ℕ
  pub protocol_reset_pulse_count : ℕ

abbrev pub default_cpu_hz : ℕ
default_cpu_hz = 12288000

-- `hz ? hz : other`
abbrev pub hz_or : ℕ → ℕ → ℕ
hz_or hz other = if hz == 0 then other else hz

-- The member initialisers.
abbrev pub new : Coin
new = record {
  cfg = record {
    validator_type = "pulse";
    denominations_cents = pos 5 ∷ pos 10 ∷ pos 25 ∷ pos 100 ∷ [];
    pulse_width_us = 350;
    inter_pulse_gap_us = 350;
  };
  cpu_hz = default_cpu_hz;
  disabled = false;
  jam_latched = false;
  reject_route = false;
  emitting = false;
  pending_cents = pos 0;
  escrow_cents = pos 0;
  pulse_target = 0;
  train_start_cycle = 0;
  protocol_timeout_count = 0;
  protocol_reset_pulse_count = 0;
}

unfoldable pub us_to_cycles : ℕ → ℕ → ℕ
us_to_cycles us hz = u64 (us * (hz / 1000000))

unfoldable pub configure : Config → Coin → Coin
configure cfg m = record m {
  cfg = record cfg {
    pulse_width_us = if cfg.pulse_width_us == 0 then 350 else cfg.pulse_width_us;
    inter_pulse_gap_us = if cfg.inter_pulse_gap_us == 0 then 350 else cfg.inter_pulse_gap_us;
  };
}

unfoldable pub reset : Coin → Coin
reset m = record new { cfg = m.cfg; cpu_hz = m.cpu_hz }

unfoldable pub set_cpu_hz : ℕ → Coin → Coin
set_cpu_hz hz m = record m { cpu_hz = hz_or hz default_cpu_hz }

abbrev pub denom_in : List ℤ → ℤ → Bool
denom_in [] cents = false
denom_in (d ∷ ds) cents = int_eq d cents || denom_in ds cents

unfoldable pub denom_allowed : ℤ → Coin → Bool
denom_allowed cents m = denom_in m.cfg.denominations_cents cents

unfoldable pub pulses_for_valid_denom : ℤ → ℤ
pulses_for_valid_denom (negsuc n) = negsuc 0
pulses_for_valid_denom (pos n) = if n == 0 || not (n % 5 == 0) then negsuc 0 else pos (n / 5)

unfoldable pub pulse_width_cycles : ℕ → Coin → ℕ
pulse_width_cycles hz m = us_to_cycles m.cfg.pulse_width_us (hz_or hz m.cpu_hz)

unfoldable pub inter_pulse_gap_cycles : ℕ → Coin → ℕ
inter_pulse_gap_cycles hz m = us_to_cycles m.cfg.inter_pulse_gap_us (hz_or hz m.cpu_hz)

unfoldable pub write_control : ℕ → Coin → Coin
write_control byte m =
    let m1 = record m { disabled = tests byte 0x01 } in
    let m2 =
      if tests byte 0x02 then record m1 { jam_latched = false; reject_route = false } else m1 in
    if tests byte 0x04 then record m2 { reject_route = false } else m2

unfoldable pub begin_insert_cents : ℤ → ℕ → ℕ → Coin → Coin × Bool
begin_insert_cents cents cycle hz m =
    let n = pulses_for_valid_denom cents in
    if m.disabled || m.jam_latched
    then (m, false)
    else if not (str_eq m.cfg.validator_type "pulse") && not (str_eq m.cfg.validator_type "uart")
    then (m, false)
    else if not (denom_allowed cents m)
    then (m, false)
    else if not (is_positive n)
    then (m, false)
    else (
      record m {
        cpu_hz = hz_or hz default_cpu_hz;
        pending_cents = cents;
        escrow_cents = cents;
        pulse_target = to_u32 n;
        emitting = true;
        train_start_cycle = cycle;
        reject_route = false;
      },
      true,
    )

-- What a jam and a reject have in common.
abbrev clear_train : Coin → Coin
clear_train m = record m {
  emitting = false;
  pending_cents = pos 0;
  escrow_cents = pos 0;
  pulse_target = 0;
}

unfoldable pub inject_jam : Coin → Coin
inject_jam m = record (clear_train m) { jam_latched = true }

unfoldable pub inject_reject_route : Coin → Coin
inject_reject_route m = record (clear_train m) { reject_route = true }

-- The loop of `read_status` over the pulses from `i` on, with `left` of them to come.
unfoldable pub pulse_loop : ℕ → ℕ → ℕ → ℕ → ℕ → ℕ → Bool
pulse_loop start pw gap cycle i zero = false
pulse_loop start pw gap cycle i (suc left) =
    let t0 = u64 (start + u64 (i * u64 (pw + gap))) in
    let later = pulse_loop start pw gap cycle (i + 1) left in
    if leb t0 cycle && ltb cycle (u64 (t0 + pw)) then true else later

-- The length of a train of `n` pulses.
abbrev pub train_cycles : ℕ → ℕ → ℕ → ℕ
train_cycles n pw gap = u64 (u64 (n * pw) + u64 ((if ltb 0 n then n - 1 else 0) * gap))

-- The pulse line, and the state behind a train that has ended.
unfoldable pub pulse_line : ℕ → Coin → Coin × Bool
pulse_line cycle m =
    let pw = pulse_width_cycles m.cpu_hz m in
    let gap = inter_pulse_gap_cycles m.cpu_hz m in
    if m.emitting && not m.jam_latched && ltb 0 m.pulse_target
    then (if leb (u64 (m.train_start_cycle + train_cycles m.pulse_target pw gap)) cycle
        then (record m { emitting = false; pending_cents = pos 0 }, false)
        else (m, pulse_loop m.train_start_cycle pw gap cycle 0 m.pulse_target))
    else (m, false)

-- `s |= mask` under a condition.
abbrev pub with_bit : Bool → ℕ → ℕ → ℕ
with_bit b mask s = if b then bit_or s mask else s

unfoldable pub read_status : ℕ → Coin → Coin × ℕ
read_status cycle m0 =
    let (m, line) = pulse_line cycle m0 in
    (
      m,
      with_bit m.disabled 0x10 (
          with_bit m.reject_route 0x08 (
            with_bit m.jam_latched 0x04
              (with_bit (not m.disabled && not m.jam_latched) 0x02 (with_bit line 0x01 0)))),
    )

-- `protocol_status_frame`
pub record StatusFrame : Type 0 where
  pub code : ℕ
  pub fault : ℕ
  pub sensor : ℕ

-- `protocol_command`; `other` is a byte that is no enumerator.
pub data Command : Type 0 where
  poll_status reset_fault wake sleep_mode checksum_request enable_acceptance : Command
  collect_escrow refund_escrow learn_escrow : Command
  other : ℕ → Command

unfoldable pub status_of : Coin → StatusFrame
status_of m = record {
  code = 0x42;
  fault = if m.jam_latched then 0x01 else 0x00;
  sensor = if is_positive m.escrow_cents then 0x01 else 0x00;
}

unfoldable pub protocol_handle_command : Command → Coin → Coin × StatusFrame × Bool
protocol_handle_command wake m = (record m { disabled = false }, status_of m, true)
protocol_handle_command sleep_mode m = (record m { disabled = true }, status_of m, true)
protocol_handle_command checksum_request m = (m, status_of m, true)
protocol_handle_command learn_escrow m = (
  record m { jam_latched = false; reject_route = false; escrow_cents = pos 0 },
  record (status_of m) { fault = 0x00; sensor = 0x00 },
  true,
)
protocol_handle_command enable_acceptance m = (record m { disabled = false }, status_of m, true)
protocol_handle_command collect_escrow m =
    if not (is_positive m.escrow_cents)
    then (m, status_of m, false)
    else (record m { escrow_cents = pos 0 }, record (status_of m) { sensor = 0x00 }, true)
protocol_handle_command refund_escrow m =
    if not (is_positive m.escrow_cents) then (m, status_of m, false) else (
      record m { escrow_cents = pos 0; reject_route = true },
      record (status_of m) { sensor = 0x00 },
      true,
    )
protocol_handle_command poll_status m = (m, status_of m, true)
protocol_handle_command reset_fault m = (
  record m { jam_latched = false; reject_route = false },
  record (status_of m) { fault = 0x00 },
  true,
)
protocol_handle_command (other byte) m = (m, status_of m, false)

unfoldable pub protocol_note_timeout : Coin → Coin
protocol_note_timeout m = record m {
  protocol_timeout_count = u32 (m.protocol_timeout_count + 1);
  protocol_reset_pulse_count = u32 (m.protocol_reset_pulse_count + 1);
  jam_latched = true;
}
