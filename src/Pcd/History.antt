-- ===== src/Pcd/History.antt =====
-- The microcontroller and its board side together, in every run of the host's operations.
use coin_line_emu.Base.{
  ◌⊎◌, ℕ, ◌≡◌, refl, sym, subst, Bool, false, not, Option, none, some, List, [], ◌∷◌, arith, All,
  inl, inr,
}
use coin_line_emu.Base.Text.{◌>>=◌, is_empty}
use coin_line_emu.Am8048.{configure, new as new_cpu}
use coin_line_emu.Am8048.Invariant.{IsByte}
use coin_line_emu.Am8048.Invariant.History.{
  new-WellFormed, load-WellFormed, reset-WellFormed, configure-WellFormed,
}
use coin_line_emu.Pcd.{Pcd, Machine, Input, read_test_input}
use coin_line_emu.Pcd.Wire.{set_input_snapshot, update_tone_mode}
use coin_line_emu.Pcd.Host.{
  construct, reset, load_firmware_rom, set_input, receive_cp_byte, run_until_cp_cycle,
  step_tp_cycles_raw, pop_tx_byte, pop_ui_event,
}
use coin_line_emu.Pcd.Queues.{IsEvent, Consistent, same_queues}
use coin_line_emu.Pcd.Sound.{Sound, step_cycles-Sound, run_until_cp_cycle-Sound}

-- The host's operations. It asks for a byte before it takes one.
pub data Op : Type 0 where
  restarted take_tx take_ui : Op
  loaded : List ℕ → Op
  inputs : Input → Op
  received raw : ℕ → Op
  until : ℕ → ℕ → Op

abbrev taken : Pcd → Option (Pcd × ℕ) → Pcd
taken p none = p
taken p (some r) = r.0

unfoldable pub apply : Op → Machine → Option Machine
apply restarted m = some (reset m)
apply take_tx (c, p) = some (c, taken p (pop_tx_byte p))
apply take_ui (c, p) = some (c, taken p (pop_ui_event p))
apply (loaded image) m = some (load_firmware_rom image m)
apply (inputs i) m = some (set_input i m)
apply (received byte) (c, p) = some (c, receive_cp_byte byte p)
apply (raw n) m = step_tp_cycles_raw n m
apply (until cp_cycle cp_hz) m = run_until_cp_cycle cp_cycle cp_hz m

unfoldable pub run : List Op → Machine → Option Machine
run [] m = some m
run (o ∷ os) m = apply o m >>= run os

abbrev pub LoadsBytes : Op → Type 0
LoadsBytes (loaded image) = All IsByte image
LoadsBytes _ = Unit

set_input-Sound : (i : Input) (m : Machine) → Sound m → Sound (set_input i m)
unfolding set_input set_input_snapshot update_tone_mode
set_input-Sound i (c, p) (w, k) = (
  w,
  same_queues false p (set_input_snapshot i p) k (ground arith) (ground arith) (ground arith)
      (ground arith),
)

receive_cp_byte-Consistent :
    (byte : ℕ) (p : Pcd) → Consistent false p → Consistent false (receive_cp_byte byte p)
unfolding receive_cp_byte update_tone_mode
receive_cp_byte-Consistent byte p k =
    same_queues false p (receive_cp_byte byte p) k (ground arith) (ground arith) (ground arith)
      (ground arith)

List-cases : (xs : List ℕ) → (xs ≡ []) ⊎ ((x : ℕ) × (rest : List ℕ) × (xs ≡ x ∷ rest))
List-cases [] = inl refl
List-cases (x ∷ rest) = inr (x, rest, refl)

pop_tx_byte-Consistent : (p : Pcd) → Consistent false p → Consistent false (taken p (pop_tx_byte p))
unfolding pop_tx_byte
pop_tx_byte-Consistent p k = elim (List-cases p.tx_bytes) [
  | inl empty ↦
      let same : p ≡ taken p (pop_tx_byte p) = ground (arith, empty) in
      subst (Consistent false) same k
  | inr (v, rest, first) ↦
      let q : Pcd = record p {
        tx_bytes = rest;
        obs = record p.obs { tx_pending = not (is_empty rest) };
      } in
      let same : q ≡ taken p (pop_tx_byte p) = ground (arith, first) in
      let kq : Consistent false q = record {
        pending = refl;
        events = k.events;
        serves = k.serves;
      } in
      subst (Consistent false) same kq
]

pop_ui_event-Consistent :
    (p : Pcd) → Consistent false p → Consistent false (taken p (pop_ui_event p))
unfolding pop_ui_event
pop_ui_event-Consistent p k = elim (List-cases p.ui_events) [
  | inl empty ↦
      let same : p ≡ taken p (pop_ui_event p) = ground (arith, empty) in
      subst (Consistent false) same k
  | inr (v, rest, first) ↦
      let q : Pcd = record p { ui_events = rest } in
      let same : q ≡ taken p (pop_ui_event p) = ground (arith, first) in
      let events = subst (All IsEvent) first k.events in
      let kq : Consistent false q = record {
        pending = k.pending;
        events = events.1;
        serves = k.serves;
      } in
      subst (Consistent false) same kq
]

-- A state with empty queues.
fresh-Consistent :
    (p : Pcd)
    → p.tx_bytes ≡ []
    → p.ui_events ≡ []
    → p.obs.tx_pending ≡ false
    → p.servicing_cp_byte ≡ false
    → Consistent false p
fresh-Consistent p tx ui pending serving = record {
  pending = ground (arith, tx, pending);
  events = subst (All IsEvent) (sym ui) tt;
  serves = serving;
}

apply-Sound :
    (o : Op) (m : Machine) → LoadsBytes o → Sound m → (r : Machine) × (apply o m ≡ some r) × Sound r
unfolding apply reset load_firmware_rom step_tp_cycles_raw
apply-Sound restarted (c, p) h (w, k) =
    let m = reset (c, p) in
    (
      m,
      refl,
      (reset-WellFormed (read_test_input m.1 1) c w, fresh-Consistent m.1 refl refl refl refl),
    )
apply-Sound take_tx (c, p) h (w, k) =
    ((c, taken p (pop_tx_byte p)), refl, (w, pop_tx_byte-Consistent p k))
apply-Sound take_ui (c, p) h (w, k) =
    ((c, taken p (pop_ui_event p)), refl, (w, pop_ui_event-Consistent p k))
apply-Sound (loaded image) (c, p) h (w, k) =
    (load_firmware_rom image (c, p), refl, (load-WellFormed image c h w, k))
apply-Sound (inputs i) m h s = (set_input i m, refl, set_input-Sound i m s)
apply-Sound (received byte) (c, p) h (w, k) =
    ((c, receive_cp_byte byte p), refl, (w, receive_cp_byte-Consistent byte p k))
apply-Sound (raw n) (c, p) h (w, k) =
    let (r, ran, wr, kr) = step_cycles-Sound false n c p w k in (r, ran, (wr, kr))
apply-Sound (until cp_cycle cp_hz) m h s = run_until_cp_cycle-Sound cp_cycle cp_hz m s

run_from :
    (os : List Op) (m : Machine)
    → All LoadsBytes os
    → Sound m
    → (r : Machine) × (run os m ≡ some r) × Sound r
unfolding run
run_from [] m hs s = (m, refl, s)
run_from (o ∷ os) m (h, hs) s =
    let (m1, did, s1) = apply-Sound o m h s in
    let (r, ran, sr) = run_from os m1 hs s1 in (r, ground (arith, did, ran), sr)

construct-Sound : (masks : List ℕ) (stop : Bool) → Sound (construct masks stop new_cpu)
unfolding construct configure
construct-Sound masks stop =
    let m = construct masks stop new_cpu in
    (
      configure-WellFormed m.0.cfg stop new_cpu new-WellFormed,
      fresh-Consistent m.1 refl refl refl refl,
    )

-- From its construction on, every sequence of the host's operations has a result, for every
-- firmware and all inputs: the microcontroller keeps its widths, the flag of a pending byte is set
-- just when bytes wait for the host, no waiting event is the idle level, and no byte is being
-- served.
pub run-Sound :
    (masks : List ℕ) (stop : Bool) (os : List Op)
    → All LoadsBytes os
    → (r : Machine) × (run os (construct masks stop new_cpu) ≡ some r) × Sound r
run-Sound masks stop os hs =
    run_from os (construct masks stop new_cpu) hs (construct-Sound masks stop)
