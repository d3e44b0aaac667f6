-- ===== src/Supervision/Reversal.antt =====
-- Line reversals in the status codes.
use coin_line_emu.Base.{ℕ, ◌≡◌, Bool, false, ◌&&◌, ◌||◌, not, List, [], ◌∷◌, arith, ◌==◌, bit_of}
use coin_line_emu.Supervision.{
  Fsm, is_saw_rev0, Input, status_input, is_profile_status_code, push_reversal, push_status,
  step_status, step, run, reset,
}
use coin_line_emu.Supervision.Once.{disconnects, run-disconnects}

-- Status codes at the given cycles and program counters.
abbrev pub statuses : List (ℕ × ℕ × ℕ) → List Input
statuses [] = []
statuses ((code, cycle, pc) ∷ cs) = status_input code cycle pc ∷ statuses cs

abbrev pub has_rev1 : List (ℕ × ℕ × ℕ) → Bool
has_rev1 [] = false
has_rev1 ((code, cycle, pc) ∷ cs) = code == 0x6a || has_rev1 cs

-- A 0x68 with a 0x6a somewhere behind it.
abbrev pub has_reversal : List (ℕ × ℕ × ℕ) → Bool
has_reversal [] = false
has_reversal ((code, cycle, pc) ∷ cs) = (code == 0x68 && has_rev1 cs) || has_reversal cs

status_step :
    (code cycle pc : ℕ) (s : Fsm)
    → let s' = (step (status_input code cycle pc) s).0 in
      (s'.disconnect_emitted ≡ (s.disconnect_emitted || (code == 0x6a && is_saw_rev0 s.rev)))
      × (is_saw_rev0 s'.rev ≡ (code == 0x68 || (not (code == 0x6a) && is_saw_rev0 s.rev)))
unfolding step step_status push_status push_reversal is_profile_status_code
status_step code cycle pc s = ground arith

-- What a sequence of codes adds to the flag, from every phase of the reversal.
run-statuses :
    (cs : List (ℕ × ℕ × ℕ)) (s : Fsm)
    → (run (statuses cs) s).0.disconnect_emitted
      ≡ (s.disconnect_emitted || (is_saw_rev0 s.rev && has_rev1 cs) || has_reversal cs)
unfolding run
run-statuses [] s = ground arith
run-statuses ((code, cycle, pc) ∷ cs) s =
    ground
      (arith, status_step code cycle pc s, run-statuses cs (step (status_input code cycle pc) s).0)

-- From a reset, any sequence of status codes leads to a disconnect event, and to one only, exactly
-- if it holds a 0x68 with a 0x6a somewhere behind it.
pub reversal_disconnects :
    (cs : List (ℕ × ℕ × ℕ)) (s : Fsm)
    → disconnects (run (statuses cs) (reset s)).1 ≡ bit_of (has_reversal cs)
unfolding reset
reversal_disconnects cs s =
    ground (arith, run-disconnects (statuses cs) s, run-statuses cs (reset s))
