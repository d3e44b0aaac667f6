-- ===== src/Pcd/Service.antt =====
-- Time that passes: the bytes received, and the cycles of the microcontroller.
use coin_line_emu.Base.{
  ℕ, ◌+◌, ◌-◌, ◌*◌, ◌<◌, ◌≤◌, ◌≡◌, refl, true, false, some, List, [], ◌∷◌, arith, length, u64,
}
use coin_line_emu.Am8048.{assert_external_interrupt}
use coin_line_emu.Am8048.Cycles.{step_cycles_ends}
use coin_line_emu.Am8048.Surrounding.{Keeps, step_cycles-keeps}
use coin_line_emu.Pcd.{Pcd, Machine, callbacks, write_port, tone_registers_changed, trace}
use coin_line_emu.Pcd.Host.{serve_byte, serve_bytes, tp_cycles, run_until_cp_cycle}

-- The callbacks leave the bytes that wait.
Waiting : List ℕ → Pcd → Type 0
Waiting bytes p = p.cp_rx_bytes ≡ bytes

Waiting-Keeps : (bytes : List ℕ) → Keeps callbacks (Waiting bytes)
unfolding Waiting write_port tone_registers_changed trace
Waiting-Keeps bytes = record {
  port_keeps = λ p v e h. ground (arith, h);
  ext_keeps = λ addr v e h. h;
  tones_keep = λ c e h. h;
  trace_keeps = λ event v c e h. h;
}

serve_byte-serves :
    (byte : ℕ) (rest : List ℕ) (m : Machine)
    → (r : Machine) × (s : ℕ) × (serve_byte byte rest m ≡ some r)
      × (r.1.cp_rx_bytes ≡ rest)
      × (32 ≤ s)
      × (s ≤ 35)
      × (u64 r.0.cycles_executed ≡ u64 (m.0.cycles_executed + s))
unfolding serve_byte assert_external_interrupt Waiting
serve_byte-serves byte rest (c, p) =
    let d = assert_external_interrupt true c in
    let q = record p { port_bus_in = byte; cp_rx_bytes = rest; servicing_cp_byte = true } in
    let (r, s, ran, least, most, total) = step_cycles_ends callbacks 32 d q in
    let kept = step_cycles-keeps callbacks (Waiting rest) (Waiting-Keeps rest) 32 d q r refl ran in
    (
      (assert_external_interrupt false r.0, record r.1 { servicing_cp_byte = false }),
      s,
      ground (arith, ran),
      kept,
      least,
      ground (arith, most),
      total,
    )

serve_bytes-serves :
    (bytes : List ℕ) (m : Machine)
    → m.1.cp_rx_bytes ≡ bytes
    → (r : Machine) × (s : ℕ) × (serve_bytes bytes m ≡ some r)
      × (r.1.cp_rx_bytes ≡ [])
      × (length bytes * 32 ≤ s)
      × (s ≤ length bytes * 35)
      × (u64 r.0.cycles_executed ≡ u64 (m.0.cycles_executed + s))
unfolding serve_bytes
serve_bytes-serves [] m h = (m, 0, refl, h, omega arith, omega arith, omega arith)
serve_bytes-serves (byte ∷ bytes) m h =
    let (m1, s, did, left, least, most, total) = serve_byte-serves byte bytes m in
    let (r, t, ran, done, leasts, mosts, totals) = serve_bytes-serves bytes m1 left in
    (
      r,
      s + t,
      ground (arith, did, ran),
      done,
      omega (arith, least, leasts),
      omega (arith, most, mosts),
      omega (arith, total, totals),
    )

-- Running to a later cycle has a result for every program: no byte waits any more, the cycle is
-- noted, and the microcontroller has executed 32 to 35 cycles for each byte that waited and the
-- cycles of the time that passed, with at most three more.
pub run_until_cp_cycle-serves :
    (cp_cycle cp_hz : ℕ) (m : Machine)
    → m.1.last_step_cp_cycle < cp_cycle
    → let n = tp_cycles (cp_cycle - m.1.last_step_cp_cycle) cp_hz in
      let waiting = length m.1.cp_rx_bytes in
      (r : Machine) × (s : ℕ) × (run_until_cp_cycle cp_cycle cp_hz m ≡ some r)
      × (r.1.cp_rx_bytes ≡ [])
      × (r.1.last_step_cp_cycle ≡ cp_cycle)
      × (r.1.obs.tp_cycles ≡ r.0.cycles_executed)
      × (waiting * 32 + n ≤ s)
      × (s ≤ waiting * 35 + n + 3)
      × (u64 r.0.cycles_executed ≡ u64 (m.0.cycles_executed + s))
unfolding run_until_cp_cycle Waiting
run_until_cp_cycle-serves cp_cycle cp_hz m later =
    let n = tp_cycles (cp_cycle - m.1.last_step_cp_cycle) cp_hz in
    let (m1, s, served, none_left, least, most, total) =
      serve_bytes-serves m.1.cp_rx_bytes m refl in
    let (r, t, ran, leasts, mosts, totals) = step_cycles_ends callbacks n m1.0 m1.1 in
    let kept =
      step_cycles-keeps callbacks (Waiting []) (Waiting-Keeps []) n m1.0 m1.1 r none_left ran in
    (
      (
        r.0,
        record r.1 {
          last_step_cp_cycle = cp_cycle;
          obs = record r.1.obs { tp_cycles = r.0.cycles_executed };
        },
      ),
      s + t,
      ground (arith, served, ran, later),
      kept,
      refl,
      refl,
      omega (arith, least, leasts),
      ground (arith, most, mosts),
      omega (arith, total, totals),
    )
