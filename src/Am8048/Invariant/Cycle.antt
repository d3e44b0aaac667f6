-- ===== src/Am8048/Invariant/Cycle.antt =====
-- The whole state behind a change of its parts, a cycle and an interrupt.
use coin_line_emu.Base.{
  ℕ, zero, suc, ◌<◌, ◌≡◌, refl, sym, subst, ap, ◌∙◌, Bool, arith, length, length-set, All, All-set,
}
use coin_line_emu.Am8048.{Cpu, fetch, push_state, write_ram}
use coin_line_emu.Am8048.Execute.{set_latch}
use coin_line_emu.Am8048.Run.{
  count_up, idle_tick, idle_ticks, tick, ticks, mask_timer, enter_interrupt,
}
use coin_line_emu.Am8048.Invariant.{IsByte, WellFormed}
use coin_line_emu.Am8048.Invariant.Memory.{push_state-Memory}

-- The accumulator is replaced.
pub put_a : (c : Cpu) (v : ℕ) → WellFormed c → v < 256 → WellFormed (record c { a = v })
put_a c v w h = record {
  ram_size = w.ram_size;
  ram_bytes = w.ram_bytes;
  port_count = w.port_count;
  port_bytes = w.port_bytes;
  rom_bytes = w.rom_bytes;
  a_byte = h;
  psw_byte = w.psw_byte;
  t_byte = w.t_byte;
  f1_bit = w.f1_bit;
  prescaler_bound = w.prescaler_bound;
  pc_bound = w.pc_bound;
}

pub put_latch : (p v : ℕ) (c : Cpu) → WellFormed c → v < 256 → WellFormed (set_latch p v c)
put_latch p v c w h = record {
  ram_size = w.ram_size;
  ram_bytes = w.ram_bytes;
  port_count = length-set c.port_latch p v ∙ w.port_count;
  port_bytes = All-set IsByte c.port_latch p v w.port_bytes h;
  rom_bytes = w.rom_bytes;
  a_byte = w.a_byte;
  psw_byte = w.psw_byte;
  t_byte = w.t_byte;
  f1_bit = w.f1_bit;
  prescaler_bound = w.prescaler_bound;
  pc_bound = w.pc_bound;
}

-- The program counter, the timer and what has no width are replaced.
pub put_counters :
    (c d : Cpu)
    → WellFormed c
    → d.ram ≡ c.ram
    → d.port_latch ≡ c.port_latch
    → d.rom ≡ c.rom
    → (d.a ≡ c.a) × (d.psw ≡ c.psw) × (d.flags_f1 ≡ c.flags_f1)
    → (d.t < 256) × (d.prescaler < 32) × (d.pc < 4096)
    → WellFormed d
put_counters c d w ram ports rom (a, psw, f1) (t, prescaler, pc) = record {
  ram_size = ap length ram ∙ w.ram_size;
  ram_bytes = subst (All IsByte) (sym ram) w.ram_bytes;
  port_count = ap length ports ∙ w.port_count;
  port_bytes = subst (All IsByte) (sym ports) w.port_bytes;
  rom_bytes = subst (All IsByte) (sym rom) w.rom_bytes;
  a_byte = omega (arith, a, w.a_byte);
  psw_byte = omega (arith, psw, w.psw_byte);
  t_byte = t;
  f1_bit = omega (arith, f1, w.f1_bit);
  prescaler_bound = prescaler;
  pc_bound = pc;
}

pub fetch-WellFormed : (c : Cpu) → WellFormed c → WellFormed (fetch c).0
unfolding fetch
fetch-WellFormed c w =
    put_counters c (fetch c).0 w refl refl refl (refl, refl, refl)
      (w.t_byte, w.prescaler_bound, omega arith)

pub tick-WellFormed : (t1 : Bool) (c : Cpu) → WellFormed c → WellFormed (tick t1 c)
unfolding tick count_up
tick-WellFormed t1 c w =
    put_counters c (tick t1 c) w (ground arith) (ground arith) (ground arith)
      (ground arith, ground arith, ground arith)
      (ground (arith, w.t_byte), ground arith, ground (arith, w.pc_bound))

pub ticks-WellFormed : (n : ℕ) (t1 : Bool) (c : Cpu) → WellFormed c → WellFormed (ticks n t1 c)
unfolding ticks
ticks-WellFormed zero t1 c w = w
ticks-WellFormed (suc n) t1 c w = ticks-WellFormed n t1 (tick t1 c) (tick-WellFormed t1 c w)

pub idle_tick-WellFormed : (c : Cpu) → WellFormed c → WellFormed (idle_tick c)
unfolding idle_tick count_up
idle_tick-WellFormed c w =
    put_counters c (idle_tick c) w (ground arith) (ground arith) (ground arith)
      (ground arith, ground arith, ground arith)
      (ground (arith, w.t_byte), ground arith, ground (arith, w.pc_bound))

pub idle_ticks-WellFormed : (n : ℕ) (c : Cpu) → WellFormed c → WellFormed (idle_ticks n c)
unfolding idle_ticks
idle_ticks-WellFormed zero c w = w
idle_ticks-WellFormed (suc n) c w = idle_ticks-WellFormed n (idle_tick c) (idle_tick-WellFormed c w)

pub mask_timer-WellFormed : (c : Cpu) → WellFormed c → WellFormed (mask_timer c)
mask_timer-WellFormed c w =
    put_counters c (mask_timer c) w (ground arith) (ground arith) (ground arith)
      (ground arith, ground arith, ground arith)
      (ground (arith, w.t_byte), ground (arith, w.prescaler_bound), ground (arith, w.pc_bound))

pub push_state-WellFormed : (c : Cpu) → WellFormed c → WellFormed (push_state c)
unfolding push_state write_ram
push_state-WellFormed c w =
    let (size, bytes) = push_state-Memory c w c (w.ram_size, w.ram_bytes) in
    record {
      ram_size = size;
      ram_bytes = bytes;
      port_count = w.port_count;
      port_bytes = w.port_bytes;
      rom_bytes = w.rom_bytes;
      a_byte = w.a_byte;
      psw_byte = omega arith;
      t_byte = w.t_byte;
      f1_bit = w.f1_bit;
      prescaler_bound = w.prescaler_bound;
      pc_bound = w.pc_bound;
    }

pub enter_interrupt-WellFormed : (c : Cpu) → WellFormed c → WellFormed (enter_interrupt c)
unfolding enter_interrupt
enter_interrupt-WellFormed c w =
    let p = push_state-WellFormed c w in
    put_counters (push_state c) (enter_interrupt c) p (ground arith) (ground arith) (ground arith)
      (ground arith, ground arith, ground arith)
      (ground (arith, p.t_byte), ground (arith, p.prescaler_bound), ground arith)
