-- ===== src/Pcd/Sound.antt =====
-- Both parts while bytes are served and time passes.
use coin_line_emu.Base.{
  ℕ, ◌-◌, ◌≡◌, refl, Bool, true, false, some, List, [], ◌∷◌, arith, leb, Bool-cases, inl, inr,
}
use coin_line_emu.Am8048.{Cpu, assert_external_interrupt}
use coin_line_emu.Am8048.Run.{step_cycles}
use coin_line_emu.Am8048.Surrounding.{step_cycles-keeps}
use coin_line_emu.Am8048.Invariant.{WellFormed}
use coin_line_emu.Am8048.Invariant.Run.{step_cycles-WellFormed}
use coin_line_emu.Am8048.Invariant.History.{external-WellFormed}
use coin_line_emu.Pcd.{Pcd, Machine, callbacks}
use coin_line_emu.Pcd.Host.{serve_byte, serve_bytes, tp_cycles, run_until_cp_cycle}
use coin_line_emu.Pcd.Queues.{Consistent, same_queues, Consistent-Keeps}

-- Both parts are as they should be.
abbrev pub Sound : Machine → Type 0
Sound m = WellFormed m.0 × Consistent false m.1

pub step_cycles-Sound :
    (s : Bool) (n : ℕ) (c : Cpu) (p : Pcd)
    → WellFormed c
    → Consistent s p
    → (r : Machine) × (step_cycles callbacks n c p ≡ some r) × WellFormed r.0 × Consistent s r.1
step_cycles-Sound s n c p w k =
    let (r, ran, wr) = step_cycles-WellFormed callbacks n c p w in
    (r, ran, wr, step_cycles-keeps callbacks (Consistent s) (Consistent-Keeps s) n c p r k ran)

pub serve_byte-Sound :
    (byte : ℕ) (rest : List ℕ) (m : Machine)
    → Sound m
    → (r : Machine) × (serve_byte byte rest m ≡ some r) × Sound r
unfolding serve_byte
serve_byte-Sound byte rest (c, p) (w, k) =
    let q = record p { port_bus_in = byte; cp_rx_bytes = rest; servicing_cp_byte = true } in
    let kq : Consistent true q = record { pending = k.pending; events = k.events; serves = refl } in
    let (r, ran, wr, kr) =
      step_cycles-Sound true 32 (assert_external_interrupt true c) q (external-WellFormed true c w)
        kq in
    let done : Consistent false (record r.1 { servicing_cp_byte = false }) = record {
      pending = kr.pending;
      events = kr.events;
      serves = refl;
    } in
    (
      (assert_external_interrupt false r.0, record r.1 { servicing_cp_byte = false }),
      ground (arith, ran),
      (external-WellFormed false r.0 wr, done),
    )

pub serve_bytes-Sound :
    (bytes : List ℕ) (m : Machine)
    → Sound m
    → (r : Machine) × (serve_bytes bytes m ≡ some r) × Sound r
unfolding serve_bytes
serve_bytes-Sound [] m h = (m, refl, h)
serve_bytes-Sound (byte ∷ bytes) m h =
    let (m1, did, h1) = serve_byte-Sound byte bytes m h in
    let (r, ran, hr) = serve_bytes-Sound bytes m1 h1 in (r, ground (arith, did, ran), hr)

pub run_until_cp_cycle-Sound :
    (cp_cycle cp_hz : ℕ) (m : Machine)
    → Sound m
    → (r : Machine) × (run_until_cp_cycle cp_cycle cp_hz m ≡ some r) × Sound r
unfolding run_until_cp_cycle
run_until_cp_cycle-Sound cp_cycle cp_hz m h =
    elim (Bool-cases (leb cp_cycle m.1.last_step_cp_cycle)) [
      | inl past ↦ (m, ground (arith, past), h)
      | inr later ↦
          let n = tp_cycles (cp_cycle - m.1.last_step_cp_cycle) cp_hz in
          let (m1, served, (w1, k1)) = serve_bytes-Sound m.1.cp_rx_bytes m h in
          let (r, ran, wr, kr) = step_cycles-Sound false n m1.0 m1.1 w1 k1 in
          let q = record r.1 {
            last_step_cp_cycle = cp_cycle;
            obs = record r.1.obs { tp_cycles = r.0.cycles_executed };
          } in
          (
            (r.0, q),
            ground (arith, later, served, ran),
            (wr, same_queues false r.1 q kr refl refl refl refl),
          )
    ]
