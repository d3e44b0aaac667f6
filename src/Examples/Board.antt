-- ===== src/Examples/Board.antt =====
-- The terminal processor's board side, and the small peripherals.
use coin_line_emu.Base.{
  ℕ, ◌+◌, ◌-◌, ◌*◌, ◌/◌, ◌%◌, ◌≤◌, ◌≡◌, refl, true, false, ◌||◌, some, List, [], ◌∷◌, arith, All,
  length, replicate, if◌then◌else◌, u64, tests,
}
use coin_line_emu.Z180.{translate20}
use coin_line_emu.Z180.Translation.{relocation, translate20-relocation}
use coin_line_emu.Startup.{Scheduler}
use coin_line_emu.Am8048.{new as new_cpu}
use coin_line_emu.Am8048.Invariant.{IsByte}
use coin_line_emu.Pcd.{Machine, Input, new, new_input}
use coin_line_emu.Pcd.Wire.{
  resolve_wire_opcode, set_input_snapshot, keymatrix_applied_mask, first_opcode,
}
use coin_line_emu.Pcd.Host.{construct, run_until_cp_cycle, tp_cycles}
use coin_line_emu.Pcd.Service.{run_until_cp_cycle-serves}
use coin_line_emu.Pcd.Packing.{set_input_snapshot-packs}
use coin_line_emu.Pcd.History.{
  Op, restarted, take_tx, take_ui, loaded, inputs, received, raw, until, run, run-Sound,
}
use coin_line_emu.Pcd.Sound.{Sound}
use coin_line_emu.Terminal.Store.{
  write_record_with_checksum, read_record_with_checksum, read_record-write_record,
}

-- The key 2 is pressed, off hook.
abbrev pressing : Input
pressing = record new_input { keymatrix = 0x00080002; linectrl = 0x35; oos_visible = true }

-- OUTL BUS,A with 0x21, over and over.
abbrev firmware : List ℕ
firmware = 0x23 ∷ 0x21 ∷ 0x02 ∷ 0x04 ∷ 0x00 ∷ []

abbrev session : List Op
session =
    loaded firmware
    ∷ restarted
    ∷ inputs pressing
    ∷ received 0x3d
    ∷ until 40 1000000
    ∷ take_tx
    ∷ take_ui
    ∷ raw 3
    ∷ []

run-Sound_example :
    (r : Machine) × (run session (construct (0xff ∷ 0xff ∷ 0xff ∷ []) false new_cpu) ≡ some r)
    × Sound r
run-Sound_example =
    let bytes : All IsByte firmware =
      (omega arith, (omega arith, (omega arith, (omega arith, (omega arith, tt))))) in
    run-Sound (0xff ∷ 0xff ∷ 0xff ∷ []) false session
      (bytes, (tt, (tt, (tt, (tt, (tt, (tt, (tt, tt))))))))

-- Two bytes wait.
abbrev waiting : Machine
waiting = (new_cpu, record new { cp_rx_bytes = 0x3d ∷ 0x20 ∷ [] })

run_until_cp_cycle-serves_example :
    let n = tp_cycles (25 - waiting.1.last_step_cp_cycle) 2000000 in
    let queued = length waiting.1.cp_rx_bytes in
    (r : Machine) × (s : ℕ) × (run_until_cp_cycle 25 2000000 waiting ≡ some r)
    × (r.1.cp_rx_bytes ≡ [])
    × (r.1.last_step_cp_cycle ≡ 25)
    × (r.1.obs.tp_cycles ≡ r.0.cycles_executed)
    × (queued * 32 + n ≤ s)
    × (s ≤ queued * 35 + n + 3)
    × (u64 r.0.cycles_executed ≡ u64 (waiting.0.cycles_executed + s))
run_until_cp_cycle-serves_example = run_until_cp_cycle-serves 25 2000000 waiting (omega arith)

pressing-named :
    resolve_wire_opcode pressing.keymatrix pressing.terminal_21_profile pressing.softkeys ≡ 0x24
unfolding resolve_wire_opcode keymatrix_applied_mask first_opcode
pressing-named = refl

set_input_snapshot-packs_example :
    let wire =
      resolve_wire_opcode pressing.keymatrix pressing.terminal_21_profile pressing.softkeys in
    let p = set_input_snapshot pressing new in
    (p.port_p1_in % 64 + p.port_p2_in / 16 % 4 * 64 ≡ wire)
    × (p.port_p1_in / 64 ≡ (if tests pressing.keymatrix 0x00080000 then 1 else 3))
    × (tests p.port_p2_in 0x40 ≡ (tests pressing.linectrl 0x40 || pressing.oos_visible))
    × (tests p.port_p2_in 0x80 ≡ (tests pressing.linectrl 0x80 || pressing.voice_active))
set_input_snapshot-packs_example =
    set_input_snapshot-packs pressing new (omega arith) (ground (arith, pressing-named))

read_record-write_record_example :
    (b : List ℕ) × (write_record_with_checksum 3 (7 ∷ 9 ∷ []) (replicate 8 0) ≡ some b)
    × (length b ≡ length (replicate {A = ℕ} 8 0))
    × (read_record_with_checksum 3 (length {A = ℕ} (7 ∷ 9 ∷ [])) b ≡ some (7 ∷ 9 ∷ []))
read_record-write_record_example =
    read_record-write_record 3 (7 ∷ 9 ∷ []) (replicate 8 0) (omega arith)

translate20-relocation_example :
    translate20 0x9abc 0x40 0x21 0xc4
    ≡ (0x9abc + relocation (0x9abc / 4096) 0x40 0x21 0xc4 * 4096) % 1048576
translate20-relocation_example =
    translate20-relocation 0x9abc 0x40 0x21 0xc4 (omega arith) (omega arith) (omega arith)

-- A scheduler before its reset.
abbrev unset : Scheduler
unset = record {
  rom_tasks = [];
  runtime_tasks = [];
  rom_task_loaded = [];
  runtime_count = 3;
  dispatch_ready = true;
  init_seen = 7;
  xflag_system_running = true;
  xflag_all_init_done = true;
  alarm_tel_not_responding = true;
}

abbrev signals : List ℕ
signals = 0x10 ∷ 0x0c ∷ 0x02 ∷ []
