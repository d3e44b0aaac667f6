-- ===== src/Smartcard.antt =====
-- The smart card of src/mame/coinline/millennium_smartcard_model.{h,cpp}: the session with its
-- answer to reset, the memory commands, and the choice of a protocol.
pub mod Fixture
pub mod Atr
pub mod Negotiate
use Prim.Native.String.{String}
use coin_line_emu.Base.Text.{bytes, is_empty, text_eq}
use coin_line_emu.Base.{
  ℕ, zero, suc, ◌+◌, ◌*◌, ◌/◌, ◌%◌, Bool, true, false, not, ◌&&◌, ◌||◌, Option, none, some, List,
  [], ◌∷◌, ◌++◌, bit_and, bit_or, length, get_or, leb, ltb, ◌==◌, if◌then◌else◌, u32, u64, bit_of,
  tests,
}

-- `millennium_smart_fixture`
pub record SmartFixture : Type 0 where
  pub protocol : List ℕ
  pub atr : List ℕ
  pub memory : List ℕ
  pub atr_delay_us : ℕ
  pub apdu_response_delay_us : ℕ
  pub requires_authorization : Bool

-- "memory"
abbrev pub memory_name : List ℕ
memory_name = 109 ∷ 101 ∷ 109 ∷ 111 ∷ 114 ∷ 121 ∷ []

abbrev pub default_fixture : SmartFixture
default_fixture = record {
  protocol = memory_name;
  atr = [];
  memory = [];
  atr_delay_us = 4000;
  apdu_response_delay_us = 1000;
  requires_authorization = false;
}

-- `negotiated_protocol`, whose `none` is `no_protocol`
pub data NegotiatedProtocol : Type 0 where
  no_protocol t0 t1 sync_fallback : NegotiatedProtocol

pub record Smartcard : Type 0 where
  pub fixture : SmartFixture
  pub rx : List ℕ
  pub atr_pending : List ℕ
  pub card_present : Bool
  pub reset_pending : Bool
  pub atr_ready_cycle : ℕ
  pub block_until_cycle : ℕ
  pub atr_enqueued : Bool
  pub cpu_hz : ℕ
  pub read_addr : ℕ
  pub cmd_phase : Bool
  pub cmd0 : ℕ
  pub selected_protocol : NegotiatedProtocol
  pub authorized : Bool

abbrev pub default_cpu_hz : ℕ
default_cpu_hz = 12288000

-- The member initialisers.
abbrev pub new : Smartcard
new = record {
  fixture = default_fixture;
  rx = [];
  atr_pending = [];
  card_present = false;
  reset_pending = false;
  atr_ready_cycle = 0;
  block_until_cycle = 0;
  atr_enqueued = false;
  cpu_hz = default_cpu_hz;
  read_addr = 0;
  cmd_phase = false;
  cmd0 = 0;
  selected_protocol = no_protocol;
  authorized = false;
}

-- The clock is kept.
unfoldable pub reset_session : Smartcard → Smartcard
reset_session m = record new { cpu_hz = m.cpu_hz }

-- The cycle behind the delay of the answer.
abbrev pub delayed : ℕ → Smartcard → ℕ
delayed cycle m = u64 (cycle + u64 (m.fixture.atr_delay_us * (m.cpu_hz / 1000000)))

unfoldable pub insert_card_at : ℕ → ℕ → Smartcard → Smartcard
insert_card_at cycle cpu_hz m0 =
    let m = record m0 { cpu_hz = if cpu_hz == 0 then default_cpu_hz else cpu_hz } in
    record m {
      card_present = true;
      rx = [];
      atr_pending = [];
      reset_pending = false;
      atr_ready_cycle = 0;
      atr_enqueued = false;
      block_until_cycle = if ltb (delayed cycle m) cycle then cycle else delayed cycle m;
    }

unfoldable pub remove_card : Smartcard → Smartcard
remove_card m = record m {
  card_present = false;
  rx = [];
  atr_pending = [];
  atr_enqueued = false;
  selected_protocol = no_protocol;
  authorized = false;
}

unfoldable pub notify_reset : ℕ → Smartcard → Smartcard
notify_reset cycle m = if not m.card_present then m else record m {
  reset_pending = true;
  rx = [];
  atr_enqueued = false;
  block_until_cycle = delayed cycle m;
  cmd_phase = false;
}

-- `if (b) s |= mask`
abbrev pub with_bit : Bool → ℕ → ℕ → ℕ
with_bit b mask s = if b then bit_or s mask else s

unfoldable pub status_lines : Smartcard → ℕ
status_lines m =
    with_bit (not (is_empty m.rx)) 0x04
      (with_bit (m.atr_enqueued || not (is_empty m.rx)) 0x02 (with_bit m.card_present 0x01 0))

-- The front of the queue; 0xff where it is empty.
abbrev pub front_of : List ℕ → ℕ
front_of [] = 0xff
front_of (b ∷ bs) = b

abbrev pub tail_of : List ℕ → List ℕ
tail_of [] = []
tail_of (b ∷ bs) = bs

-- The answer, once in the queue.
abbrev pub enqueue_atr : Smartcard → Smartcard
enqueue_atr m =
    if not m.atr_enqueued then record m { rx = m.rx ++ m.fixture.atr; atr_enqueued = true } else m

unfoldable pub read_fifo : ℕ → Smartcard → Smartcard × ℕ
read_fifo cycle m =
    let m1 = enqueue_atr m in
    if not m.card_present || ltb cycle m.block_until_cycle
    then (m, 0xff)
    else (record m1 { rx = tail_of m1.rx }, front_of m1.rx)

unfoldable pub write_command : ℕ → ℕ → Smartcard → Smartcard
write_command b cycle m =
    let size = if is_empty m.fixture.memory then 1 else u32 (length m.fixture.memory) in
    let addressed = record m { read_addr = b % size; cmd_phase = false } in
    if m.fixture.requires_authorization && not m.authorized
    then m
    else if not m.card_present || not (text_eq m.fixture.protocol memory_name)
    then m
    else if not m.cmd_phase
    then record m { cmd0 = b; cmd_phase = true }
    else if not (bit_and m.cmd0 0xf0 == 0xb0)
    then record m { cmd_phase = false }
    else if is_empty m.fixture.memory
    then addressed
    else record addressed { rx = m.rx ++ get_or m.fixture.memory (b % size) 0 ∷ [] }

unfoldable pub authorize_session : Bool → Smartcard → Smartcard
authorize_session authorized m = record m { authorized = authorized }

-- The cursor behind the bytes TA, TB and TC that `y` announces.
abbrev pub skip_interface : ℕ → ℕ → ℕ
skip_interface y cursor = cursor + bit_of (tests y 1) + bit_of (tests y 2) + bit_of (tests y 4)

-- The loop over the interface bytes: whether protocol 0 and protocol 1 were seen. `none` is fuel
-- that ran out.
unfoldable pub interface_loop : ℕ → List ℕ → ℕ → ℕ → Bool → Bool → Option (Bool × Bool)
interface_loop zero atr cursor y seen_t0 seen_t1 = none
interface_loop (suc fuel) atr cursor y seen_t0 seen_t1 =
    let at = skip_interface y cursor in
    let tdi = get_or atr at 0 in
    let proto = tdi % 16 in
    let rest =
      interface_loop fuel atr (at + 1) (tdi / 16) (proto == 0 || seen_t0) (proto == 1 || seen_t1) in
    if not (tests y 8) || leb (length atr) at then some (seen_t0, seen_t1) else rest

-- `sync_fallback` if the caller allows it.
abbrev pub probe : Bool → Smartcard → Smartcard × Bool
probe allow_sync_probe m =
    if allow_sync_probe then (record m { selected_protocol = sync_fallback }, true) else (m, false)

-- The choice behind the loop.
abbrev pub choose : Bool → Bool × Bool → Smartcard → Smartcard × Bool
choose allow_sync_probe seen m =
    if seen.1
    then (record m { selected_protocol = t1 }, true)
    else if seen.0
    then (record m { selected_protocol = t0 }, true)
    else probe allow_sync_probe m

unfoldable pub choose_from : Bool → Option (Bool × Bool) → Smartcard → Option (Smartcard × Bool)
choose_from allow_sync_probe none m = none
choose_from allow_sync_probe (some seen) m = some (choose allow_sync_probe seen m)

-- `none` is fuel that ran out.
unfoldable pub negotiate_protocol : Bool → Smartcard → Option (Smartcard × Bool)
negotiate_protocol allow_sync_probe m =
    let atr = m.fixture.atr in
    let ts = get_or atr 0 0 in
    let seen = interface_loop (length atr) atr 2 (get_or atr 1 0 / 16) true false in
    if not m.card_present
    then some (m, false)
    else if text_eq m.fixture.protocol memory_name
    then some (record m { selected_protocol = t0 }, true)
    else if text_eq m.fixture.protocol (bytes "sync")
    then some (record m { selected_protocol = sync_fallback }, true)
    else if ltb (length atr) 2
    then some (probe allow_sync_probe m)
    else if not (ts == 0x3b) && not (ts == 0x3f)
    then some (probe allow_sync_probe m)
    else choose_from allow_sync_probe seen m
