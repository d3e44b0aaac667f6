-- ===== src/Card.antt =====
-- The magnetic card reader of src/mame/coinline/millennium_card_model.{h,cpp}: the track-2 decoder,
-- the fixture that is loaded, and the bits of a swipe against the cycle counter.
pub mod Fixture
pub mod Load
pub mod Swipe
pub mod Track2
use coin_line_emu.Base.{
  ℕ, zero, suc, ◌+◌, ◌-◌, ◌*◌, ◌/◌, ◌%◌, ◌^◌, Bool, true, false, not, ◌&&◌, ◌||◌, Option, none,
  some, List, [], ◌∷◌, ◌++◌, bit_or, bit_xor, length, take, drop, get_or, leb, ltb, ◌==◌,
  if◌then◌else◌, u8, u64,
}
use coin_line_emu.Base.Text.{is_empty, is_digit, find_char, substr}

-- `millennium_mag_fixture`
pub record MagFixture : Type 0 where
  pub track : ℕ
  pub payload_track_ascii : List ℕ
  pub swipe_duration_ms : ℕ
  pub bit_rate_bps : ℕ
  pub force_lrc_error : Bool
  pub force_parity_error : Bool

abbrev pub default_fixture : MagFixture
default_fixture = record {
  track = 2;
  payload_track_ascii = [];
  swipe_duration_ms = 350;
  bit_rate_bps = 210;
  force_lrc_error = false;
  force_parity_error = false;
}

-- `track2_decode_error`, whose `none` is `no_error`
pub data Track2DecodeError : Type 0 where
  no_error missing_start_sentinel missing_end_sentinel illegal_character : Track2DecodeError
  empty_pan parity_failed lrc_failed : Track2DecodeError

-- `track2_decode_result`
pub record Track2DecodeResult : Type 0 where
  pub error : Track2DecodeError
  pub pan : List ℕ
  pub body : List ℕ
  pub reverse_swipe : Bool

pub record Card : Type 0 where
  pub fix : MagFixture
  pub bits : List ℕ
  pub lrc_ok : Bool
  pub swipe_start_cycle : ℕ
  pub armed : Bool
  pub cpu_hz_arm : ℕ
  pub sensor_cp_stuck : Bool
  pub sensor_cfs_stuck : Bool

-- The member initialisers.
abbrev pub new : Card
new = record {
  fix = default_fixture;
  bits = [];
  lrc_ok = false;
  swipe_start_cycle = 0;
  armed = false;
  cpu_hz_arm = 1;
  sensor_cp_stuck = false;
  sensor_cfs_stuck = false;
}

-- The loop that both checks run, from the sum `x`.
unfoldable pub xor_from : ℕ → List ℕ → ℕ
xor_from x [] = x
xor_from x (c ∷ cs) = xor_from (u8 (bit_xor x c)) cs

unfoldable pub xor_lrc_byte : List ℕ → ℕ
xor_lrc_byte body_ascii = xor_from 0 body_ascii

unfoldable pub track_xor_ok : List ℕ → Bool
track_xor_ok full_track_ascii = xor_from 0 full_track_ascii == 0

-- A result that an error ends.
abbrev pub decode_failure : Track2DecodeError → Bool → Track2DecodeResult
decode_failure e reverse = record { error = e; pan = []; body = []; reverse_swipe = reverse }

unfoldable pub is_legal : ℕ → Bool
is_legal c = is_digit c || c == b'='

unfoldable pub all_legal : List ℕ → Bool
all_legal [] = true
all_legal (c ∷ cs) = is_legal c && all_legal cs

-- The payload up to its separator.
unfoldable pub pan_of : List ℕ → List ℕ
pan_of payload = elim (find_char b'=' payload) [ none ↦ payload | some sep ↦ take sep payload ]

unfoldable pub decode_payload : List ℕ → Bool → Track2DecodeResult
decode_payload payload force_parity_error =
    if is_empty (pan_of payload)
    then decode_failure empty_pan false
    else if not (all_legal payload)
    then decode_failure illegal_character false
    else if force_parity_error
    then decode_failure parity_failed false
    else record { error = no_error; pan = pan_of payload; body = payload; reverse_swipe = false }

unfoldable pub decode_body : List ℕ → Bool → Track2DecodeResult
decode_body body force_parity_error = elim (find_char b';' body) [
  | none ↦
      decode_failure missing_start_sentinel
        (elim (find_char b'?' body) [ none ↦ false | some _ ↦ true ])
  | some start ↦ elim (find_char b'?' body) [
    | none ↦ decode_failure missing_end_sentinel false
    | some end ↦
        if leb end start
        then decode_failure missing_end_sentinel false
        else decode_payload (substr body (start + 1) (end - start - 1)) force_parity_error
  ]
]

unfoldable pub decode_track2_ascii : List ℕ → Bool → Bool → Track2DecodeResult
decode_track2_ascii full require_lrc force_parity_error =
    if is_empty full
    then decode_failure missing_start_sentinel false
    else if require_lrc && not (track_xor_ok full)
    then decode_failure lrc_failed false
    else decode_body
        (if require_lrc && ltb 1 (length full) then take (length full - 1) full else full)
        force_parity_error

-- `(uc >> b) & 1` for the bits from `b` on, with `left` to come
unfoldable pub byte_bits : ℕ → ℕ → ℕ → List ℕ
byte_bits uc b zero = []
byte_bits uc b (suc left) = uc / 2 ^ b % 2 ∷ byte_bits uc (b + 1) left

unfoldable pub track_bits : List ℕ → List ℕ
track_bits [] = []
track_bits (uc ∷ ucs) = byte_bits uc 0 8 ++ track_bits ucs

unfoldable pub rebuild_bits_from_track : Card → Card
rebuild_bits_from_track m = record m { bits = track_bits m.fix.payload_track_ascii }

unfoldable pub reset_session : Card → Card
reset_session m = new

unfoldable pub set_path_sensors_stuck : Bool → Bool → Card → Card
set_path_sensors_stuck cp_stuck cfs_stuck m = record m {
  sensor_cp_stuck = cp_stuck;
  sensor_cfs_stuck = cfs_stuck;
}

unfoldable pub arm_swipe : ℕ → ℕ → Card → Card
arm_swipe start_cycle cpu_hz m = record m {
  swipe_start_cycle = start_cycle;
  armed = true;
  cpu_hz_arm = if cpu_hz == 0 then 1 else cpu_hz;
}

unfoldable pub abort_swipe : Card → Card
abort_swipe m = record m { armed = false }

unfoldable pub cycles_per_bit : ℕ → Card → ℕ
cycles_per_bit cpu_hz m = if m.fix.bit_rate_bps == 0 then 1 else cpu_hz / m.fix.bit_rate_bps

unfoldable pub swipe_active : ℕ → Card → Bool
swipe_active cycle m =
    let cpb = cycles_per_bit m.cpu_hz_arm m in
    let last_bit_cycle = u64 (m.swipe_start_cycle + u64 (cpb * (length m.bits - 1))) in
    let window_end =
      u64 (m.swipe_start_cycle + u64 (m.fix.swipe_duration_ms * (m.cpu_hz_arm / 1000))) in
    let end = if ltb window_end last_bit_cycle then last_bit_cycle else window_end in
    if not m.armed || is_empty m.bits then false else leb cycle end && leb m.swipe_start_cycle cycle

-- The index of the bit at a cycle, for a bit time that is not 0.
abbrev pub bit_index : ℕ → ℕ → Card → ℕ
bit_index cpb cycle m =
    if ltb m.swipe_start_cycle cycle then (cycle - m.swipe_start_cycle) / cpb else 0

-- The index as `status_bits` computes it: without a test of `cpb`, so `none` is a division by 0.
unfoldable pub checked_index : ℕ → ℕ → Card → Option ℕ
checked_index cpb cycle m =
    if ltb m.swipe_start_cycle cycle && cpb == 0 then none else some (bit_index cpb cycle m)

-- `if (b) s |= mask`
abbrev pub with_bit : Bool → ℕ → ℕ → ℕ
with_bit b mask s = if b then bit_or s mask else s

-- The bits of the status that no swipe changes.
unfoldable pub sensor_bits : Card → ℕ
sensor_bits m = with_bit (not m.lrc_ok) 0x08 (
    with_bit m.sensor_cfs_stuck 0x40 (
      with_bit m.sensor_cp_stuck 0x20 (with_bit (not (is_empty m.fix.payload_track_ascii)) 0x01 0)))

unfoldable pub status_bits : ℕ → Card → Option ℕ
status_bits cycle m =
    let s = sensor_bits m in
    if not (m.armed && not (is_empty m.bits))
    then some s
    else elim (checked_index (cycles_per_bit m.cpu_hz_arm m) cycle m) [
      | none ↦ none
      | some idx ↦
          if ltb idx (length m.bits)
          then some (bit_or (bit_or s 0x02) 0x04)
          else if leb m.swipe_start_cycle cycle && not (is_empty m.bits)
          then some (bit_or s 0x10)
          else some s
    ]

unfoldable pub data_byte : ℕ → Card → ℕ
data_byte cycle m =
    let cpb = cycles_per_bit m.cpu_hz_arm m in
    if not m.armed || is_empty m.bits
    then 0xff
    else if cpb == 0
    then 0xfe
    else if leb (length m.bits) (bit_index cpb cycle m)
    then 0xff
    else get_or m.bits (bit_index cpb cycle m) 0 % 2
