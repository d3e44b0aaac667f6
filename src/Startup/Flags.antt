-- ===== src/Startup/Flags.antt =====
-- The flags behind any sequence of init signals.
use coin_line_emu.Base.Bits.{bit_and_step, bit_and-zero, tests-pow, tests-bit_or}
use coin_line_emu.Base.Bounds.{bit_or-bound}
use coin_line_emu.Base.{
  ℕ, ◌/◌, ◌^◌, ◌<◌, ◌≡◌, refl, ap, ◌∙◌, Bool, false, ◌&&◌, ◌||◌, List, [], ◌∷◌, arith, bit_and,
  bit_or, All, ◌==◌, u16, tests,
}
use coin_line_emu.Startup.{Scheduler, reset, nominal, degraded, recompute_flags, post_init_signal}

-- The two masks, bit by bit.
covers_nominal :
    (x : ℕ) → (bit_and x nominal == nominal) ≡ (tests x 1 && tests x 4 && tests x 8 && tests x 16)
covers_nominal x = ground (
  arith,
  bit_and_step x 29,
  bit_and_step (x / 2) 14,
  bit_and_step (x / 2 / 2) 7,
  bit_and_step (x / 2 / 2 / 2) 3,
  bit_and_step (x / 2 / 2 / 2 / 2) 1,
  bit_and-zero (x / 2 / 2 / 2 / 2 / 2),
  tests-pow x 0,
  tests-pow x 2,
  tests-pow x 3,
  tests-pow x 4,
)

covers_degraded :
    (x : ℕ) → (bit_and x degraded == degraded) ≡ (tests x 2 && tests x 4 && tests x 8 && tests x 16)
covers_degraded x = ground (
  arith,
  bit_and_step x 30,
  bit_and_step (x / 2) 15,
  bit_and_step (x / 2 / 2) 7,
  bit_and_step (x / 2 / 2 / 2) 3,
  bit_and_step (x / 2 / 2 / 2 / 2) 1,
  bit_and-zero (x / 2 / 2 / 2 / 2 / 2),
  tests-pow x 1,
  tests-pow x 2,
  tests-pow x 3,
  tests-pow x 4,
)

-- The flags that the signals seen ask for.
abbrev pub all_done : (ℕ → Bool) → Bool
all_done seen = (seen 1 || seen 2) && seen 4 && seen 8 && seen 16

record Flagged (s : Scheduler) : Type 0 where
  alarm : s.alarm_tel_not_responding ≡ tests s.init_seen 2
  running : s.xflag_system_running ≡ (tests s.init_seen 4 && tests s.init_seen 8)
  done : s.xflag_all_init_done ≡ all_done (tests s.init_seen)
  width : s.init_seen < 65536

post-bit :
    (k sig : ℕ) (s : Scheduler)
    → sig < 65536
    → s.init_seen < 65536
    → tests (post_init_signal sig s).init_seen (2 ^ k)
      ≡ (tests s.init_seen (2 ^ k) || tests sig (2 ^ k))
unfolding post_init_signal recompute_flags
post-bit k sig s hs hw =
    let small = bit_or-bound 16 s.init_seen sig hw hs in
    let same : u16 (bit_or s.init_seen sig) ≡ bit_or s.init_seen sig = omega (arith, small) in
    ap (λ (x : ℕ). tests x (2 ^ k)) same ∙ tests-bit_or k s.init_seen sig

post-Flagged :
    (sig : ℕ) (s : Scheduler) → sig < 65536 → Flagged s → Flagged (post_init_signal sig s)
unfolding post_init_signal recompute_flags
post-Flagged sig s hs f =
    let x = u16 (bit_or s.init_seen sig) in
    let b0 = post-bit 0 sig s hs f.width in
    let b1 = post-bit 1 sig s hs f.width in
    let b2 = post-bit 2 sig s hs f.width in
    let b3 = post-bit 3 sig s hs f.width in
    let b4 = post-bit 4 sig s hs f.width in
    let n = covers_nominal x in
    let d = covers_degraded x in
    record {
      alarm = ground (arith, b1, f.alarm);
      running = ground (arith, b2, b3, f.running);
      done = ground (arith, b0, b1, b2, b3, b4, n, d, f.done);
      width = omega arith;
    }

-- A signal of the list has a bit.
abbrev pub raised : List ℕ → ℕ → Bool
raised [] m = false
raised (sig ∷ sigs) m = tests sig m || raised sigs m

unfoldable pub post_all : List ℕ → Scheduler → Scheduler
post_all [] s = s
post_all (sig ∷ sigs) s = post_all sigs (post_init_signal sig s)

abbrev pub IsSignal : ℕ → Type 0
IsSignal sig = sig < 65536

post_all-Flagged :
    (sigs : List ℕ) (s : Scheduler) → All IsSignal sigs → Flagged s → Flagged (post_all sigs s)
unfolding post_all
post_all-Flagged [] s h f = f
post_all-Flagged (sig ∷ sigs) s (first, rest) f =
    post_all-Flagged sigs (post_init_signal sig s) rest (post-Flagged sig s first f)

post_all-bit :
    (k : ℕ) (sigs : List ℕ) (s : Scheduler)
    → All IsSignal sigs
    → Flagged s
    → tests (post_all sigs s).init_seen (2 ^ k) ≡ (tests s.init_seen (2 ^ k) || raised sigs (2 ^ k))
unfolding post_all
post_all-bit k [] s h f = ground arith
post_all-bit k (sig ∷ sigs) s (first, rest) f =
    let one = post-bit k sig s first f.width in
    let more = post_all-bit k sigs (post_init_signal sig s) rest (post-Flagged sig s first f) in
    ground (arith, one, more)

-- Behind a reset and any init signals of 16 bits, in any order, the alarm is on exactly if the
-- time-out was among them, the system is running exactly if memory and display were, and the
-- initialisation is complete exactly if memory, display, date and one of the two answers of the
-- telephony were.
pub post_all-raised :
    (sigs : List ℕ) (s0 : Scheduler)
    → All IsSignal sigs
    → let s = post_all sigs (reset s0) in
      (s.alarm_tel_not_responding ≡ raised sigs 2)
      × (s.xflag_system_running ≡ (raised sigs 4 && raised sigs 8))
      × (s.xflag_all_init_done ≡ all_done (raised sigs))
unfolding reset
post_all-raised sigs s0 h =
    let fresh : Flagged (reset s0) = record {
      alarm = refl;
      running = refl;
      done = refl;
      width = omega arith;
    } in
    let f = post_all-Flagged sigs (reset s0) h fresh in
    let b0 = post_all-bit 0 sigs (reset s0) h fresh in
    let b1 = post_all-bit 1 sigs (reset s0) h fresh in
    let b2 = post_all-bit 2 sigs (reset s0) h fresh in
    let b3 = post_all-bit 3 sigs (reset s0) h fresh in
    let b4 = post_all-bit 4 sigs (reset s0) h fresh in
    (
      ground (arith, f.alarm, b1),
      ground (arith, f.running, b2, b3),
      ground (arith, f.done, b0, b1, b2, b3, b4),
    )
