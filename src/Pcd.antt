-- ===== src/Pcd.antt =====
-- The terminal processor's board side, src/mame/coinline/millennium_pcd3349a_contract.{h,cpp}: its
-- inputs, ports and queues, and the microcontroller that it drives.
pub mod Wire
pub mod Host
pub mod Service
pub mod Queues
pub mod Packing
pub mod Sound
pub mod History
use Prim.Native.String.{String}
use coin_line_emu.Base.{
  ℕ, zero, suc, ◌+◌, ◌-◌, ◌*◌, ◌/◌, ◌%◌, max, Bool, true, false, not, ◌&&◌, ◌||◌, Option, none,
  some, List, [], ◌∷◌, ◌++◌, bit_and, get_or, set, leb, ltb, ◌==◌, if◌then◌else◌, u8, u64, tests,
}
use coin_line_emu.Base.Text.{◌>>=◌, is_empty}
use coin_line_emu.Keypad.{Profile, repdial_10}
use coin_line_emu.Am8048.{
  Callbacks, Cpu, new as new_cpu, configure as configure_cpu, load_program_rom, reset as reset_cpu,
  assert_external_interrupt,
}
use coin_line_emu.Am8048.Run.{step_cycles}
use coin_line_emu.Am8048.Execute.{input as test_input_of}

-- `tp_tone_mode`
pub data ToneMode : Type 0 where
  no_tone dialtone nis dtmf : ToneMode

-- `tp_input_snapshot`
pub record Input : Type 0 where
  pub keymatrix : ℕ
  pub linectrl : ℕ
  pub softkeys : ℕ
  pub secmask : ℕ
  pub oos_visible : Bool
  pub voice_active : Bool
  pub cp_cycle : ℕ
  pub terminal_21_profile : Profile

-- `tp_observable_state`
pub record Observable : Type 0 where
  pub ready : Bool
  pub fault_latched : Bool
  pub hook_off : Bool
  pub line_ok : Bool
  pub tx_pending : Bool
  pub relay_cp_seized : Bool
  pub tone : ToneMode
  pub tp_cycles : ℕ
  pub last_cp_opcode : ℕ
  pub state_name : String
  pub hgf : ℕ
  pub lgf : ℕ

pub record Pcd : Type 0 where
  pub input : Input
  pub tx_bytes : List ℕ
  pub ui_events : List ℕ
  pub obs : Observable
  pub last_step_cp_cycle : ℕ
  pub port_bus_in : ℕ
  pub port_p1_in : ℕ
  pub port_p2_in : ℕ
  pub port_latch : List ℕ
  pub port_reset_mask : List ℕ
  pub cp_rx_bytes : List ℕ
  pub servicing_cp_byte : Bool
  pub relay_seized : Bool

-- The microcontroller, and the object that its callbacks act on.
abbrev pub Machine : Type 0
Machine = Cpu × Pcd

-- The member initialisers.
abbrev pub new_input : Input
new_input = record {
  keymatrix = 0;
  linectrl = 0xff;
  softkeys = 0xffff;
  secmask = 0xff;
  oos_visible = false;
  voice_active = false;
  cp_cycle = 0;
  terminal_21_profile = repdial_10;
}

abbrev pub new_obs : Observable
new_obs = record {
  ready = false;
  fault_latched = false;
  hook_off = false;
  line_ok = true;
  tx_pending = false;
  relay_cp_seized = false;
  tone = no_tone;
  tp_cycles = 0;
  last_cp_opcode = 0;
  state_name = "reset_pending";
  hgf = 0;
  lgf = 0;
}

abbrev pub new : Pcd
new = record {
  input = new_input;
  tx_bytes = [];
  ui_events = [];
  obs = new_obs;
  last_step_cp_cycle = 0;
  port_bus_in = 0xff;
  port_p1_in = 0xff;
  port_p2_in = 0xff;
  port_latch = 0xff ∷ 0xff ∷ 0xff ∷ [];
  port_reset_mask = 0xff ∷ 0xff ∷ 0xff ∷ [];
  cp_rx_bytes = [];
  servicing_cp_byte = false;
  relay_seized = false;
}

-- The callbacks that the constructor installs.
unfoldable pub read_port : Pcd → ℕ → ℕ
read_port p port =
    if port == 0
    then p.port_bus_in
    else if port == 1
    then u8 (bit_and (get_or p.port_latch 1 0) p.port_p1_in)
    else if port == 2
    then u8 (bit_and (get_or p.port_latch 2 0) p.port_p2_in)
    else 0xff

abbrev pub tone_of : ℕ → ℕ → ToneMode
tone_of hgf lgf = if hgf == 0 && lgf == 0 then no_tone else dtmf

abbrev pub put_latch : ℕ → ℕ → Pcd → Pcd
put_latch port value p =
    if ltb port 3 then record p { port_latch = set p.port_latch port value } else p

abbrev pub push_tx : ℕ → Pcd → Pcd
push_tx value p = record p {
  tx_bytes = p.tx_bytes ++ (value ∷ []);
  obs = record p.obs { tx_pending = true };
}

-- The idle level of the bus is no event.
abbrev pub push_ui : ℕ → Pcd → Pcd
push_ui value p = if value == 0xff then p else record p { ui_events = p.ui_events ++ (value ∷ []) }

unfoldable pub write_port : ℕ → ℕ → Pcd → Pcd
write_port port value p0 =
    let p = put_latch port value p0 in
    if port == 0 && p.servicing_cp_byte
    then push_tx value p
    else if port == 0
    then push_ui value p
    else if port == 4
    then record p { obs = record p.obs { hgf = value; tone = tone_of value p.obs.lgf } }
    else if port == 5
    then record p { obs = record p.obs { lgf = value; tone = tone_of p.obs.hgf value } }
    else p

unfoldable pub read_test_input : Pcd → ℕ → Bool
read_test_input p i =
    if i == 0
    then tests p.input.linectrl 0x02
    else if i == 1
    then tests p.input.linectrl 0x04
    else false

unfoldable pub tone_registers_changed : ℕ → ℕ → Pcd → Pcd
tone_registers_changed hgf lgf p = record p {
  obs = record p.obs { hgf = hgf; lgf = lgf; tone = tone_of hgf lgf };
}

unfoldable pub trace : String → ℕ → ℕ → Pcd → Pcd
trace event cycle value p = p

abbrev pub callbacks : Callbacks Pcd
callbacks = record {
  read_port = some read_port;
  write_port = some write_port;
  read_ext_data = none;
  write_ext_data = none;
  read_test_input = some read_test_input;
  tone_registers_changed = some tone_registers_changed;
  trace = some trace;
}
