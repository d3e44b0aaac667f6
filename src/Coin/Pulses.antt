-- ===== src/Coin/Pulses.antt =====
-- The pulse line against its period.
use native.Mathlib.Decide.{dec_lt}
use native.Mathlib.Nat.{div-eq_of_lt-le, div-add-mod', div-lt_iff_lt-mul}
use coin_line_emu.Base.{
  ℕ, zero, suc, ◌+◌, ◌-◌, ◌*◌, ◌/◌, ◌%◌, ◌^◌, ◌≤◌, ◌<◌, ◌≡◌, refl, ◌∙◌, ap, true, false, ◌&&◌,
  arith, leb, ltb, if◌then◌else◌, u64,
}
use coin_line_emu.Coin.{
  Coin, pulse_loop, train_cycles, pulse_line, pulse_width_cycles, inter_pulse_gap_cycles,
}

module _ (start pw gap cycle : ℕ) where
  -- Before pulse `i` the line is low.
  loop_before :
      (i left : ℕ)
      → start + (i + left) * (pw + gap) < 2 ^ 64
      → cycle < start + i * (pw + gap)
      → pulse_loop start pw gap cycle i left ≡ false
  unfolding pulse_loop
  loop_before i zero fits early = refl
  loop_before i (suc left) fits early = ground (arith, loop_before (i + 1) left)

  -- One round without the wrap-around.
  loop_round :
      (i left : ℕ)
      → start + (i + suc left) * (pw + gap) < 2 ^ 64
      → pulse_loop start pw gap cycle i (suc left) ≡ (
          if leb (start + i * (pw + gap)) cycle && ltb cycle (start + i * (pw + gap) + pw)
          then true
          else pulse_loop start pw gap cycle (i + 1) left)
  unfolding pulse_loop
  loop_round i left fits =
      let period : u64 (pw + gap) ≡ pw + gap = omega arith in
      let t0 : u64 (start + u64 (i * u64 (pw + gap))) ≡ start + i * (pw + gap) =
        rw period (omega arith) in
      let t1 : u64 (start + i * (pw + gap) + pw) ≡ start + i * (pw + gap) + pw = omega arith in
      rw (t0, t1)

  loop_end : (i : ℕ) → pulse_loop start pw gap cycle i 0 ≡ false
  unfolding pulse_loop
  loop_end i = refl

  not_below : (i off : ℕ) → 0 < pw → i * (pw + gap) ≤ off → ltb (off / (pw + gap)) i ≡ false
  not_below i off pos past =
      ground
        (arith, λ (h : off / (pw + gap) < i). (div-lt_iff_lt-mul {k = pw + gap} (omega arith)).0 h)

  -- The place in its period of an offset that falls into period `i`.
  in_period :
      (i off : ℕ)
      → 0 < pw
      → i * (pw + gap) ≤ off
      → off < (i + 1) * (pw + gap)
      → (off / (pw + gap) ≡ i) × (off % (pw + gap) + i * (pw + gap) ≡ off)
  in_period i off pos past early =
      let at : off / (pw + gap) ≡ i = div-eq_of_lt-le (pw + gap) past early in
      (at, omega (arith, ap (λ (t : ℕ). t * (pw + gap)) at, div-add-mod' off (pw + gap)))

  -- From pulse `i` on, by the place of the cycle in its period.
  loop_period :
      (i left off : ℕ)
      → 0 < pw
      → start + (i + left) * (pw + gap) < 2 ^ 64
      → cycle ≡ start + off
      → i * (pw + gap) ≤ off
      → pulse_loop start pw gap cycle i left
        ≡ (ltb (off % (pw + gap)) pw && ltb (off / (pw + gap)) (i + left))
  loop_period i zero off pos fits at past =
      let none_left : i + 0 ≡ i = omega arith in
      loop_end i ∙ rw none_left (ground (arith, not_below i off pos past))
  loop_period i (suc left) off pos fits at past = elim (dec_lt off ((i + 1) * (pw + gap))) [
    | yes early ↦
        let (index, place) = in_period i off pos past early in
        let low = loop_before (i + 1) left (omega arith) (omega arith) in
        loop_round i left fits ∙ ground (arith, low, index, place)
    | no late ↦
        let rest = loop_period (i + 1) left off pos (omega arith) at (omega arith) in
        let count : i + suc left ≡ i + 1 + left = omega arith in
        loop_round i left fits ∙ rw count (ground (arith, rest))
  ]

  -- Behind the last pulse of `k + 1` no cycle is in the high part of a period that counts.
  past_train :
      (k off : ℕ)
      → 0 < pw
      → k * (pw + gap) + pw ≤ off
      → (ltb (off % (pw + gap)) pw && ltb (off / (pw + gap)) (suc k)) ≡ false
  past_train k off pos late = elim (dec_lt off ((k + 1) * (pw + gap))) [
    | yes early ↦
        let (index, place) = in_period k off pos (omega arith) early in ground (arith, place)
    | no beyond ↦ ground (arith, not_below (suc k) off pos (omega arith))
  ]

  -- The end of the train without the wrap-around.
  train_end :
      (k : ℕ)
      → start + suc k * (pw + gap) < 2 ^ 64
      → u64 (start + train_cycles (suc k) pw gap) ≡ start + (k * (pw + gap) + pw)
  train_end k fits =
      let gaps : (if ltb 0 (suc k) then suc k - 1 else 0) ≡ k = ground arith in
      rw gaps (omega arith)

  line_periodic :
      (n off : ℕ)
      → 0 < pw
      → start + n * (pw + gap) < 2 ^ 64
      → cycle ≡ start + off
      → (if ltb 0 n
          then (if leb (u64 (start + train_cycles n pw gap)) cycle
              then false
              else pulse_loop start pw gap cycle 0 n)
          else false)
        ≡ (ltb (off % (pw + gap)) pw && ltb (off / (pw + gap)) n)
  line_periodic zero off pos fits at = ground arith
  line_periodic (suc k) off pos fits at =
      let from_start : 0 + suc k ≡ suc k = omega arith in
      let loop = loop_period 0 (suc k) off pos (rw from_start fits) at (omega arith) in
      ground (arith, train_end k fits, past_train k off pos, rw from_start at loop)

-- While a train of `n` pulses runs on a validator that is not jammed, with pulses of `pw` cycles,
-- `pw` positive, and gaps of `gap`, and the train ends before 2^64 cycles, the pulse line is high
-- exactly in the first `pw` cycles of each of the `n` periods of `pw + gap` cycles.
pub pulse_line_periodic :
    (m : Coin) (pw gap off : ℕ)
    → pulse_width_cycles m.cpu_hz m ≡ pw
    → inter_pulse_gap_cycles m.cpu_hz m ≡ gap
    → m.emitting ≡ true
    → m.jam_latched ≡ false
    → 0 < pw
    → m.train_start_cycle + m.pulse_target * (pw + gap) < 2 ^ 64
    → (pulse_line (m.train_start_cycle + off) m).1
      ≡ (ltb (off % (pw + gap)) pw && ltb (off / (pw + gap)) m.pulse_target)
unfolding pulse_line
pulse_line_periodic m pw gap off width between emits free pos fits =
    ground (
      arith,
      line_periodic m.train_start_cycle pw gap (m.train_start_cycle + off) m.pulse_target off,
    )
