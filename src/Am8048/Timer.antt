-- ===== src/Am8048/Timer.antt =====
-- The timer and its prescaler as one counter of 13 bits.
use coin_line_emu.Base.{ℕ, zero, suc, ◌+◌, ◌*◌, ◌%◌, ◌<◌, ◌≡◌, Bool, true, false, ◌||◌, arith, ltb}
use coin_line_emu.Am8048.{Cpu}
use coin_line_emu.Am8048.Run.{count_up, tick, ticks}

-- The timer runs on the prescaler.
pub record Counting (c : Cpu) : Type 0 where
  pub running : c.tmr_on ≡ true
  pub timer_mode : c.tmr_mode_counter ≡ false
  pub t_byte : c.t < 256
  pub prescaler_bound : c.prescaler < 32

abbrev pub counter : Cpu → ℕ
counter c = c.t * 32 + c.prescaler

tick-Counting : (t1 : Bool) (c : Cpu) → Counting c → Counting (tick t1 c)
unfolding tick count_up
tick-Counting t1 c k = record {
  running = ground (arith, k.running, k.timer_mode);
  timer_mode = ground (arith, k.running, k.timer_mode);
  t_byte = ground (arith, k.t_byte);
  prescaler_bound = ground arith;
}

tick-counter : (t1 : Bool) (c : Cpu) → Counting c → counter (tick t1 c) ≡ (counter c + 1) % 8192
unfolding tick count_up
tick-counter t1 c k = ground (arith, k.running, k.timer_mode, k.t_byte, k.prescaler_bound)

tick-overflow :
    (t1 : Bool) (c : Cpu)
    → Counting c
    → let d = tick t1 c in
      (d.t_flag ≡ (c.t_flag || ltb 8191 (counter c + 1)))
      × (d.t_req ≡ (c.t_req || ltb 8191 (counter c + 1)))
unfolding tick count_up
tick-overflow t1 c k = (
  ground (arith, k.running, k.timer_mode, k.t_byte, k.prescaler_bound),
  ground (arith, k.running, k.timer_mode, k.t_byte, k.prescaler_bound),
)

-- In the timer mode, `n` cycles add `n` to the timer and prescaler as one counter modulo 8192, and
-- the timer flag and request are set where they were set or the counter passed 8191.
pub ticks-counter :
    (n : ℕ) (t1 : Bool) (c : Cpu)
    → Counting c
    → let d = ticks n t1 c in
      (counter d ≡ (counter c + n) % 8192)
      × (d.t_flag ≡ (c.t_flag || ltb 8191 (counter c + n)))
      × (d.t_req ≡ (c.t_req || ltb 8191 (counter c + n)))
unfolding ticks
ticks-counter zero t1 c k = (
  omega (arith, k.t_byte, k.prescaler_bound),
  ground (arith, k.t_byte, k.prescaler_bound),
  ground (arith, k.t_byte, k.prescaler_bound),
)
ticks-counter (suc n) t1 c k =
    let d = tick t1 c in
    let one = tick-counter t1 c k in
    let (flag, req) = tick-overflow t1 c k in
    let (rest, flags, reqs) = ticks-counter n t1 d (tick-Counting t1 c k) in
    (
      omega (arith, one, rest),
      ground (arith, one, flag, flags, k.t_byte, k.prescaler_bound),
      ground (arith, one, req, reqs, k.t_byte, k.prescaler_bound),
    )
