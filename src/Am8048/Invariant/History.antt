-- ===== src/Am8048/Invariant/History.antt =====
-- The microcontroller's state in every run of the operations of `am8048_core`.
use coin_line_emu.Base.{
  ℕ, zero, suc, ◌-◌, ◌≡◌, refl, Bool, Option, none, some, List, [], ◌∷◌, arith, length,
  length-replicate, take, replicate, All, All-replicate, All-append_iff,
}
use coin_line_emu.Am8048.{
  Callbacks, Config, Cpu, new, configure, load_program_rom, reset, assert_external_interrupt,
  assert_timer_interrupt,
}
use coin_line_emu.Am8048.Execute.{input}
use coin_line_emu.Am8048.Run.{step_cycles}
use coin_line_emu.Am8048.Invariant.{IsByte, WellFormed}
use coin_line_emu.Am8048.Invariant.Cycle.{put_counters}
use coin_line_emu.Am8048.Invariant.Run.{step_cycles-WellFormed}

-- The public operations that change the state.
pub data Op : Type 0 where
  configured : Config → Bool → Op
  loaded : List ℕ → Op
  restarted : Op
  external timer : Bool → Op
  stepped : ℕ → Op

-- A program is a list of bytes.
abbrev pub LoadsBytes : Op → Type 0
LoadsBytes (loaded image) = All IsByte image
LoadsBytes _ = Unit

module _ {E : Type 0} (cb : Callbacks E) where
  abbrev pub apply : Op → Cpu → E → Option (Cpu × E)
  apply (configured cfg stop) c e = some (configure cfg stop c, e)
  apply (loaded image) c e = some (load_program_rom image c, e)
  apply restarted c e = some (reset (input cb 1 e) c, e)
  apply (external level) c e = some (assert_external_interrupt level c, e)
  apply (timer level) c e = some (assert_timer_interrupt level c, e)
  apply (stepped n) c e = step_cycles cb n c e

  abbrev pub run_cpu : List Op → Cpu → E → Option (Cpu × E)
  run_cpu [] c e = some (c, e)
  run_cpu (o ∷ os) c e = elim (apply o c e) [ none ↦ none | some r ↦ run_cpu os r.0 r.1 ]

take-IsByte : (n : ℕ) (xs : List ℕ) → All IsByte xs → All IsByte (take n xs)
take-IsByte zero xs h = tt
take-IsByte (suc n) [] h = tt
take-IsByte (suc n) (x ∷ xs) (first, rest) = (first, take-IsByte n xs rest)

pub new-WellFormed : WellFormed new
new-WellFormed = record {
  ram_size = length-replicate {A = ℕ} 224 0;
  ram_bytes = All-replicate IsByte 224 0 (omega arith);
  port_count = refl;
  port_bytes = All-replicate IsByte 8 0xff (omega arith);
  rom_bytes = tt;
  a_byte = omega arith;
  psw_byte = omega arith;
  t_byte = omega arith;
  f1_bit = omega arith;
  prescaler_bound = omega arith;
  pc_bound = omega arith;
}

-- Another program.
with_rom : (c d : Cpu) → WellFormed d → All IsByte c.rom → WellFormed (record d { rom = c.rom })
with_rom c d w h = record {
  ram_size = w.ram_size;
  ram_bytes = w.ram_bytes;
  port_count = w.port_count;
  port_bytes = w.port_bytes;
  rom_bytes = h;
  a_byte = w.a_byte;
  psw_byte = w.psw_byte;
  t_byte = w.t_byte;
  f1_bit = w.f1_bit;
  prescaler_bound = w.prescaler_bound;
  pc_bound = w.pc_bound;
}

-- Each operation without callbacks.
pub configure-WellFormed :
    (cfg : Config) (stop : Bool) (c : Cpu) → WellFormed c → WellFormed (configure cfg stop c)
unfolding configure
configure-WellFormed cfg stop c w =
    put_counters c (configure cfg stop c) w refl refl refl (refl, refl, refl)
      (w.t_byte, w.prescaler_bound, w.pc_bound)

pub external-WellFormed :
    (level : Bool) (c : Cpu) → WellFormed c → WellFormed (assert_external_interrupt level c)
unfolding assert_external_interrupt
external-WellFormed level c w =
    put_counters c (assert_external_interrupt level c) w refl refl refl (refl, refl, refl)
      (w.t_byte, w.prescaler_bound, w.pc_bound)

timer-WellFormed :
    (level : Bool) (c : Cpu) → WellFormed c → WellFormed (assert_timer_interrupt level c)
unfolding assert_timer_interrupt
timer-WellFormed level c w =
    put_counters c (assert_timer_interrupt level c) w refl refl refl (refl, refl, refl)
      (w.t_byte, w.prescaler_bound, w.pc_bound)

pub load-WellFormed :
    (image : List ℕ) (c : Cpu)
    → All IsByte image
    → WellFormed c
    → WellFormed (load_program_rom image c)
unfolding load_program_rom
load-WellFormed image c h w =
    let padding = All-replicate IsByte (4096 - length image) 0x00 (omega arith) in
    let bytes =
      (All-append_iff IsByte (take 4096 image) (replicate (4096 - length image) 0x00)).1
        (take-IsByte 4096 image h, padding) in
    with_rom (load_program_rom image c) c w bytes

pub reset-WellFormed : (t1 : Bool) (c : Cpu) → WellFormed c → WellFormed (reset t1 c)
unfolding reset
reset-WellFormed t1 c w =
    put_counters (record new { rom = c.rom }) (reset t1 c)
      (with_rom c new new-WellFormed w.rom_bytes) refl refl refl (refl, refl, refl)
      (omega arith, omega arith, omega arith)

module _ {E : Type 0} (cb : Callbacks E) where
  apply-WellFormed :
      (o : Op) (c : Cpu) (e : E)
      → LoadsBytes o
      → WellFormed c
      → (r : Cpu × E) × (apply cb o c e ≡ some r) × WellFormed r.0
  apply-WellFormed (loaded image) c e h w =
      ((load_program_rom image c, e), refl, load-WellFormed image c h w)
  apply-WellFormed (stepped n) c e h w = step_cycles-WellFormed cb n c e w
  apply-WellFormed restarted c e h w =
      ((reset (input cb 1 e) c, e), refl, reset-WellFormed (input cb 1 e) c w)
  apply-WellFormed (configured cfg stop) c e h w =
      ((configure cfg stop c, e), refl, configure-WellFormed cfg stop c w)
  apply-WellFormed (external level) c e h w =
      ((assert_external_interrupt level c, e), refl, external-WellFormed level c w)
  apply-WellFormed (timer level) c e h w =
      ((assert_timer_interrupt level c, e), refl, timer-WellFormed level c w)

  run_from :
      (os : List Op) (c : Cpu) (e : E)
      → All LoadsBytes os
      → WellFormed c
      → (r : Cpu × E) × (run_cpu cb os c e ≡ some r) × WellFormed r.0
  run_from [] c e hs w = ((c, e), refl, w)
  run_from (o ∷ os) c e (h, hs) w =
      let (q, did, wq) = apply-WellFormed o c e h w in
      let (r, ran, wr) = run_from os q.0 q.1 hs wq in (r, ground (arith, did, ran), wr)

  -- In every run of the operations from the initial state, with programs of bytes and any
  -- callbacks, the run has a result in which the memory has 224 bytes and the ports eight, and the
  -- accumulator, status word and timer are bytes, flag 1 a bit, the prescaler below 32 and the
  -- program counter below 4096.
  pub run_cpu-WellFormed :
      (os : List Op) (e : E)
      → All LoadsBytes os
      → (r : Cpu × E) × (run_cpu cb os new e ≡ some r) × WellFormed r.0
  run_cpu-WellFormed os e hs = run_from os new e hs new-WellFormed
