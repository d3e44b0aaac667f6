-- ===== src/Terminal.antt =====
-- The terminal's small peripherals, src/mame/coinline/millennium_terminal_peripherals_model.{h,cpp}:
-- ring alerter, forgotten card alarm, data jack, cash box and health monitor. Store has the EEPROM.
pub mod Store
pub mod DataJack
pub mod Health
use coin_line_emu.Base.{
  ℕ, ◌+◌, ◌-◌, Bool, true, false, not, ◌&&◌, ◌||◌, bit_and, bit_or, leb, ◌==◌, if◌then◌else◌, u8,
  u32,
}

-- `ring_alerter_model`
pub record RingAlerter : Type 0 where
  pub disable_mask : ℕ
  pub is_ringing : Bool
  pub incoming_emitted : Bool
  pub abandoned_emitted : Bool
  pub ring_pulse_count : ℕ

unfoldable pub disable : ℕ → RingAlerter → RingAlerter
disable reason r = record r { disable_mask = u8 (bit_or r.disable_mask reason) }

unfoldable pub enable : ℕ → RingAlerter → RingAlerter
enable reason r = record r { disable_mask = u8 (bit_and r.disable_mask (0xffffffff - reason)) }

unfoldable pub on_ring_on : RingAlerter → RingAlerter
on_ring_on r = record r {
  is_ringing = true;
  ring_pulse_count = u32 (r.ring_pulse_count + 1);
  incoming_emitted = if r.disable_mask == 0 then true else r.incoming_emitted;
}

unfoldable pub on_ring_abandoned : RingAlerter → RingAlerter
on_ring_abandoned r = record r {
  abandoned_emitted = if r.is_ringing && r.disable_mask == 0 then true else r.abandoned_emitted;
  is_ringing = false;
}

unfoldable pub on_ring_timeout : RingAlerter → RingAlerter
on_ring_timeout r = record r {
  abandoned_emitted = if r.is_ringing && r.disable_mask == 0 then true else r.abandoned_emitted;
  is_ringing = false;
}

unfoldable pub clear_events : RingAlerter → RingAlerter
clear_events r = record r {
  incoming_emitted = false;
  abandoned_emitted = false;
  ring_pulse_count = 0;
}

-- `forgotten_card_alarm_model`
pub record CardAlarm : Type 0 where
  pub on_delay : ℕ
  pub cadence_on : ℕ
  pub cadence_off : ℕ
  pub total : ℕ
  pub t : ℕ
  pub cadence_t : ℕ
  pub armed : Bool
  pub active : Bool
  pub tone_on : Bool
  pub relay_warning : Bool

unfoldable pub start : ℕ → ℕ → ℕ → ℕ → CardAlarm → CardAlarm
start on_delay_ticks cadence_on_ticks cadence_off_ticks total_ticks a = record {
  on_delay = on_delay_ticks;
  cadence_on = cadence_on_ticks;
  cadence_off = cadence_off_ticks;
  total = total_ticks;
  t = 0;
  cadence_t = 0;
  armed = true;
  active = false;
  tone_on = false;
  relay_warning = false;
}

unfoldable pub cancel : CardAlarm → CardAlarm
cancel a = record a { armed = false; active = false; tone_on = false; relay_warning = false }

-- A tick while the delay runs.
abbrev pub tick_armed : CardAlarm → CardAlarm
tick_armed a0 =
    let a = record a0 { t = u32 (a0.t + 1) } in
    if leb a.on_delay a.t
    then record a {
      armed = false;
      active = true;
      tone_on = true;
      relay_warning = true;
      t = 0;
      cadence_t = 0;
    }
    else a

-- The cadence of the tone.
abbrev pub tick_cadence : CardAlarm → CardAlarm
tick_cadence a0 =
    let a = record a0 { cadence_t = u32 (a0.cadence_t + 1) } in
    if a.tone_on
    then if leb a.cadence_on a.cadence_t then record a { tone_on = false; cadence_t = 0 } else a
    else if leb a.cadence_off a.cadence_t
    then record a { tone_on = true; cadence_t = 0 }
    else a

abbrev pub tick_active : CardAlarm → CardAlarm
tick_active a0 =
    let a = record a0 { t = u32 (a0.t + 1) } in
    if not (a.total == 0) && leb a.total a.t then cancel a else tick_cadence a

unfoldable pub tick : CardAlarm → CardAlarm
tick a = if not a.armed && not a.active then a else if a.armed then tick_armed a else tick_active a

unfoldable pub acknowledge_user_return : CardAlarm → CardAlarm
acknowledge_user_return a = cancel a

-- `cashbox_collection_model`, with its last payload.
pub record Cashbox : Type 0 where
  pub status : ℕ
  pub seq : ℕ
  pub box : ℕ
  pub box_set : Bool
  pub payload_box : ℕ
  pub payload_sequence : ℕ
  pub payload_status : ℕ

unfoldable pub commit_record : ℕ → Bool → Cashbox → Cashbox
commit_record box_id upload_required c =
    let fresh = not c.box_set || not (c.box == box_id) in
    let status1 = if fresh then u8 (bit_or 0x02 0x01) else 0x02 in
    let status2 = if upload_required then u8 (bit_or status1 0x04) else status1 in
    let seq1 = u32 ((if fresh then 0 else c.seq) + 1) in
    let box1 = if fresh then box_id else c.box in
    record {
      status = status2;
      seq = seq1;
      box = box1;
      box_set = true;
      payload_box = box1;
      payload_sequence = seq1;
      payload_status = status2;
    }
