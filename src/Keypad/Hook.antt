-- ===== src/Keypad/Hook.antt =====
-- The debounced hook switch, and the milestone that a scan raises.
use coin_line_emu.Base.Int.{pos}
use coin_line_emu.Base.Bits.{all_below, all_below_sound, tests-bit_and, tests-bit_or}
use coin_line_emu.Base.{
  ℕ, ◌+◌, ◌-◌, ◌<◌, ◌≤◌, ◌^◌, ◌≡◌, refl, Bool, true, false, not, ◌&&◌, ◌||◌, arith, List, [], ◌∷◌,
  leb, ◌==◌, if◌then◌else◌, bit_and, tests, bit_of,
}
use coin_line_emu.Keypad.{
  Config, Keypad, k_mask_hook, configure, reset, write_port_b, write_port_c, write_control,
  sample_hook, apply_hook_debounce, keymatrix_with_hook_debounce, observe_scan, read_port_a,
  consume_m7_pending,
}

-- Samples of the hook: the level, and the cycle.
unfoldable pub samples : List (Bool × ℕ) → Keypad → Keypad
samples [] m = m
samples (s ∷ ss) m = samples ss (sample_hook s.0 s.1 m)

-- A sample at a cycle of `bound` or later.
unfoldable pub reaches : ℕ → List ℕ → Bool
reaches bound [] = false
reaches bound (cycle ∷ cycles) = leb bound cycle || reaches bound cycles

unfoldable pub at_level : Bool → List ℕ → List (Bool × ℕ)
at_level level [] = []
at_level level (cycle ∷ cycles) = (level, cycle) ∷ at_level level cycles

run_steady :
    (level : Bool) (d : ℕ) (cycles : List ℕ) (m : Keypad)
    → m.cfg.debounce_cycles ≡ pos d
    → 0 < d
    → m.last_hook_raw_change_cycle + d < 18446744073709551616
    → m.hook_raw ≡ level
    → (samples (at_level level cycles) m).hook_stable
      ≡ (if reaches (m.last_hook_raw_change_cycle + d) cycles then level else m.hook_stable)
unfolding samples reaches at_level sample_hook
run_steady level d [] m cfg positive fits raw = refl
run_steady level d (cycle ∷ cycles) m cfg positive fits raw =
    let m1 = sample_hook level cycle m in
    let rest =
      run_steady level d cycles m1 (ground (arith, cfg)) positive (ground (arith, cfg))
        (ground (arith, cfg)) in
    ground (arith, rest, cfg)

-- After a level change at cycle `t` and further samples at the new level, with a debounce of `d`
-- cycles, the debounced level is the new one exactly if a sample came at `t + d` or later; until
-- then it is what it was.
pub sample_hook-debounced :
    (raw : Bool) (d t : ℕ) (cycles : List ℕ) (m : Keypad)
    → m.cfg.debounce_cycles ≡ pos d
    → 0 < d
    → t + d < 18446744073709551616
    → m.hook_raw ≡ not raw
    → (samples (at_level raw (t ∷ cycles)) m).hook_stable
      ≡ (if reaches (t + d) cycles then raw else m.hook_stable)
unfolding samples at_level sample_hook
sample_hook-debounced true d t cycles m cfg positive fits raw =
    let m1 = sample_hook true t m in
    let changed : (m1.last_hook_raw_change_cycle ≡ t)
        × (m1.hook_raw ≡ true)
        × (m1.hook_stable ≡ m.hook_stable)
        × (m1.cfg ≡ m.cfg) =
      ground (arith, cfg) in
    let rest =
      run_steady true d cycles m1 (ground (arith, cfg)) positive (ground (arith))
        (ground (arith)) in
    ground (arith, rest, changed)
sample_hook-debounced false d t cycles m cfg positive fits raw =
    let m1 = sample_hook false t m in
    let changed : (m1.last_hook_raw_change_cycle ≡ t)
        × (m1.hook_raw ≡ false)
        × (m1.hook_stable ≡ m.hook_stable)
        × (m1.cfg ≡ m.cfg) =
      ground (arith, cfg) in
    let rest =
      run_steady false d cycles m1 (ground (arith, cfg)) positive (ground (arith))
        (ground (arith)) in
    ground (arith, rest, changed)

hook_mask_table :
    (k : ℕ) → k < 32 → tests (0xffffffff - 2 ^ k_mask_hook) (2 ^ k) ≡ not (k == k_mask_hook)
unfolding all_below
hook_mask_table k h =
    let entry =
      all_below_sound 32
        (λ j.
          tests (0xffffffff - 2 ^ k_mask_hook) (2 ^ j) && not (j == k_mask_hook)
          || not (tests (0xffffffff - 2 ^ k_mask_hook) (2 ^ j)) && (j == k_mask_hook))
        k refl h in
    ground (arith, entry)

hook_bit_table : (k : ℕ) → k < 32 → tests (2 ^ k_mask_hook) (2 ^ k) ≡ (k == k_mask_hook)
unfolding all_below
hook_bit_table k h =
    let entry =
      all_below_sound 32
        (λ j.
          tests (2 ^ k_mask_hook) (2 ^ j) && (j == k_mask_hook)
          || not (tests (2 ^ k_mask_hook) (2 ^ j)) && not (j == k_mask_hook))
        k refl h in
    ground (arith, entry)

-- The bitmap that the debounce returns has the debounced level at the hook's bit and the keys'
-- bits as they were.
pub keymatrix_with_hook_debounce-bits :
    (keys cycle k : ℕ) (m : Keypad)
    → k < 32
    → let r = keymatrix_with_hook_debounce keys cycle m in
      tests r.1 (2 ^ k) ≡ (if k == k_mask_hook then r.0.hook_stable else tests keys (2 ^ k))
unfolding keymatrix_with_hook_debounce apply_hook_debounce
keymatrix_with_hook_debounce-bits keys cycle k m h =
    let cleared = bit_and keys (0xffffffff - 2 ^ k_mask_hook) in
    ground (
      arith,
      hook_mask_table k h,
      hook_bit_table k h,
      tests-bit_and k keys (0xffffffff - 2 ^ k_mask_hook),
      tests-bit_or k cleared (2 ^ k_mask_hook),
    )

-- The calls between two resets.
pub data Op : Type 0 where
  set_config : Config → Op
  port_a : ℕ → ℕ → Op
  port_b_write port_c_write control_write : ℕ → ℕ → Op
  debounce : ℕ → ℕ → Op
  consume_m7 : Op

unfoldable pub apply : Op → Keypad → Keypad
apply (set_config cfg) m = configure cfg m
apply (port_a keys cycle) m = (read_port_a keys cycle m).0
apply (port_b_write byte cycle) m = write_port_b byte cycle m
apply (port_c_write byte cycle) m = write_port_c byte cycle m
apply (control_write byte cycle) m = write_control byte cycle m
apply (debounce keys cycle) m = (keymatrix_with_hook_debounce keys cycle m).0
apply consume_m7 m = (consume_m7_pending m).0

-- How often the milestone is reported.
unfoldable pub m7_reports : List Op → Keypad → ℕ
m7_reports [] m = 0
m7_reports (o ∷ os) m =
    elim o [ consume_m7 ↦ bit_of (consume_m7_pending m).1 | _ ↦ 0 ] + m7_reports os (apply o m)

-- A pending milestone is latched.
abbrev Latched : Keypad → Type 0
Latched m = bit_of m.m7_pending ≤ bit_of m.m7_latched

m7_reports_le :
    (os : List Op) (m : Keypad)
    → Latched m
    → m7_reports os m + bit_of m.m7_latched ≤ 1 + bit_of m.m7_pending
unfolding m7_reports apply configure read_port_a observe_scan write_port_b write_port_c
    write_control keymatrix_with_hook_debounce apply_hook_debounce sample_hook consume_m7_pending
m7_reports_le [] m h = ground arith
m7_reports_le (set_config cfg ∷ os) m h =
    let rest = m7_reports_le os (configure cfg m) (ground arith) in ground (arith, rest)
m7_reports_le (port_a keys cycle ∷ os) m h =
    let rest = m7_reports_le os (read_port_a keys cycle m).0 (ground arith) in ground (arith, rest)
m7_reports_le (port_b_write byte cycle ∷ os) m h =
    let rest = m7_reports_le os (write_port_b byte cycle m) (ground arith) in ground (arith, rest)
m7_reports_le (port_c_write byte cycle ∷ os) m h =
    let rest = m7_reports_le os (write_port_c byte cycle m) (ground arith) in ground (arith, rest)
m7_reports_le (control_write byte cycle ∷ os) m h = omega (arith, m7_reports_le os m h)
m7_reports_le (debounce keys cycle ∷ os) m h =
    let rest = m7_reports_le os (keymatrix_with_hook_debounce keys cycle m).0 (ground arith) in
    ground (arith, rest)
m7_reports_le (consume_m7 ∷ os) m h =
    let rest = m7_reports_le os (consume_m7_pending m).0 (ground arith) in ground (arith, rest)

-- Over any sequence of calls from a reset, the scan milestone is reported at most once.
pub m7_reports-reset : (os : List Op) (m : Keypad) → m7_reports os (reset m) ≤ 1
unfolding reset
m7_reports-reset os m = omega (arith, m7_reports_le os (reset m) (omega arith))
