-- ===== src/Pcd/Host.antt =====
-- The host's operations: construction, reset, the bytes from the other processor, and time.
use coin_line_emu.Base.{
  ℕ, ◌-◌, ◌*◌, ◌/◌, max, Bool, true, false, not, ◌||◌, Option, none, some, List, [], ◌∷◌, ◌++◌, leb,
  ◌==◌, if◌then◌else◌, u64,
}
use coin_line_emu.Base.Text.{◌>>=◌, is_empty}
use coin_line_emu.Am8048.{
  Cpu, configure as configure_cpu, load_program_rom, reset as reset_cpu, assert_external_interrupt,
}
use coin_line_emu.Am8048.Run.{step_cycles}
use coin_line_emu.Pcd.{Pcd, Machine, Observable, Input, new, callbacks, read_test_input}
use coin_line_emu.Pcd.Wire.{set_input_snapshot, update_tone_mode}

-- The constructor: the masks and the stop option come from the environment.
unfoldable pub construct : List ℕ → Bool → Cpu → Machine
construct masks stop c = (
  configure_cpu
      (record {
        xtal_hz = 3579545;
        enable_timer_interrupt = true;
        enable_external_interrupt = true;
      })
      stop c,
  record new { port_reset_mask = masks },
)

-- The input snapshot is kept.
unfoldable pub reset : Machine → Machine
reset (c, p) =
    let q = record new {
      input = p.input;
      port_latch = p.port_reset_mask;
      port_reset_mask = p.port_reset_mask;
    } in
    (reset_cpu (read_test_input q 1) c, q)

unfoldable pub load_firmware_rom : List ℕ → Machine → Machine
load_firmware_rom image (c, p) = (load_program_rom image c, p)

unfoldable pub set_input : Input → Machine → Machine
set_input i (c, p) = (c, set_input_snapshot i p)

unfoldable pub receive_cp_byte : ℕ → Pcd → Pcd
receive_cp_byte byte p0 =
    let p = record p0 {
      obs = record p0.obs { last_cp_opcode = byte };
      relay_seized = if byte == 0x3c then false else if byte == 0x3d then true else p0.relay_seized;
      cp_rx_bytes = p0.cp_rx_bytes ++ (byte ∷ []);
    } in
    if byte == 0x3c || byte == 0x3d then update_tone_mode p else p

-- A byte is put on the bus, and the firmware runs 32 cycles with the interrupt asserted.
unfoldable pub serve_byte : ℕ → List ℕ → Machine → Option Machine
serve_byte byte rest (c, p) = do
  (c1, p1) ←
      step_cycles callbacks 32 (assert_external_interrupt true c)
        (record p { port_bus_in = byte; cp_rx_bytes = rest; servicing_cp_byte = true })
  some (assert_external_interrupt false c1, record p1 { servicing_cp_byte = false })

-- The loop over the bytes received.
unfoldable pub serve_bytes : List ℕ → Machine → Option Machine
serve_bytes [] m = some m
serve_bytes (byte ∷ bytes) m = serve_byte byte bytes m >>= serve_bytes bytes

-- The cycles of the microcontroller in a time of the other processor.
unfoldable pub tp_cycles : ℕ → ℕ → ℕ
tp_cycles delta cp_hz = u64 (delta * 3579545) / max 1 cp_hz

unfoldable pub run_until_cp_cycle : ℕ → ℕ → Machine → Option Machine
run_until_cp_cycle cp_cycle cp_hz (c, p) =
    if leb cp_cycle p.last_step_cp_cycle then some (c, p) else do
      m ← serve_bytes p.cp_rx_bytes (c, p)
      let n = tp_cycles (cp_cycle - p.last_step_cp_cycle) cp_hz
      (c1, p1) ← step_cycles callbacks n m.0 m.1
      some (
        c1,
        record p1 {
          last_step_cp_cycle = cp_cycle;
          obs = record p1.obs { tp_cycles = c1.cycles_executed };
        },
      )

unfoldable pub step_tp_cycles_raw : ℕ → Machine → Option Machine
step_tp_cycles_raw n (c, p) = step_cycles callbacks n c p

-- Taking a byte from an empty queue is undefined; here it is a missing result.
unfoldable pub pop_tx_byte : Pcd → Option (Pcd × ℕ)
pop_tx_byte p = elim (p.tx_bytes) [
  | [] ↦ none
  | v ∷ rest ↦
      some
        (record p { tx_bytes = rest; obs = record p.obs { tx_pending = not (is_empty rest) } }, v)
]

unfoldable pub pop_ui_event : Pcd → Option (Pcd × ℕ)
pop_ui_event p = elim (p.ui_events) [
  | [] ↦ none
  | v ∷ rest ↦ some (record p { ui_events = rest }, v)
]

unfoldable pub observable : Pcd → Observable
observable p = record p.obs { relay_cp_seized = p.relay_seized }
