-- ===== src/Smartcard/Negotiate.antt =====
-- The choice of a protocol.
use coin_line_emu.Base.{
  ℕ, zero, suc, ◌+◌, ◌/◌, ◌%◌, ◌<◌, ◌≡◌, refl, Bool, true, false, not, ◌&&◌, ◌||◌, Option, none,
  some, List, arith, length, get_or, ltb, leb, ◌==◌, tests, Bool-cases, inl, inr,
}
use coin_line_emu.Base.Text.{bytes, text_eq}
use coin_line_emu.Smartcard.{
  Smartcard, memory_name, skip_interface, interface_loop, choose_from, negotiate_protocol,
  no_protocol, NegotiatedProtocol,
}

abbrev is_some {ℓ} : {A : Type ℓ} → Option A → Bool
is_some none = false
is_some (some a) = true

-- Fuel for the bytes from the cursor on is enough, and protocol 0 stays seen.
interface_loop_total :
    (fuel : ℕ) (atr : List ℕ) (cursor y : ℕ) (seen_t0 seen_t1 : Bool)
    → length atr < cursor + fuel
    → 0 < fuel
    → seen_t0 ≡ true
    → (seen : Bool × Bool) × (interface_loop fuel atr cursor y seen_t0 seen_t1 ≡ some seen)
      × (seen.0 ≡ true)
unfolding interface_loop
interface_loop_total zero atr cursor y seen_t0 seen_t1 enough positive kept = absurd (omega arith)
interface_loop_total (suc fuel) atr cursor y seen_t0 seen_t1 enough positive kept =
    let at = skip_interface y cursor in
    let tdi = get_or atr at 0 in
    elim (Bool-cases (not (tests y 8) || leb (length atr) at)) [
      | inl stop ↦ ((seen_t0, seen_t1), ground (arith, stop), kept)
      | inr go ↦
          let rest =
            interface_loop_total fuel atr (at + 1) (tdi / 16) (tdi % 16 == 0 || seen_t0)
              (tdi % 16 == 1 || seen_t1) (ground (arith, go)) (ground (arith, go))
              (ground (arith, kept)) in
          (rest.0, ground (arith, go, rest.1), rest.2)
    ]

-- The first byte of an answer to reset names one of the two conventions.
abbrev pub has_convention : List ℕ → Bool
has_convention atr = leb 2 (length atr) && (get_or atr 0 0 == 0x3b || get_or atr 0 0 == 0x3f)

-- When a negotiation succeeds.
abbrev pub negotiable : Bool → Smartcard → Bool
negotiable allow_sync_probe m =
    m.card_present
    && (text_eq m.fixture.protocol memory_name
        || text_eq m.fixture.protocol (bytes "sync")
        || has_convention m.fixture.atr
        || allow_sync_probe)

abbrev pub is_chosen : NegotiatedProtocol → Bool
is_chosen no_protocol = false
is_chosen _ = true

-- Whether a negotiation that ended succeeded, and whether a protocol is selected behind it.
abbrev pub outcome : Option (Smartcard × Bool) → Option (Bool × Bool)
outcome none = none
outcome (some r) = some (r.1, is_chosen r.0.selected_protocol)

-- For every answer to reset the negotiation ends, within its fuel. It succeeds exactly if a card
-- is there and its fixture names the memory or the synchronous protocol, or its answer has two
-- bytes and a known convention, or the caller allows the synchronous fallback; a success selects a
-- protocol, and a failure selects none that was not selected before.
pub negotiate_protocol-negotiable :
    (allow_sync_probe : Bool) (m : Smartcard)
    → outcome (negotiate_protocol allow_sync_probe m)
      ≡ some (
        negotiable allow_sync_probe m,
        negotiable allow_sync_probe m || is_chosen m.selected_protocol,
      )
unfolding negotiate_protocol choose_from
negotiate_protocol-negotiable allow_sync_probe m =
    let atr = m.fixture.atr in
    elim (Bool-cases (ltb (length atr) 2)) [
      | inl short ↦ ground (arith, short)
      | inr long ↦
          let seen =
            interface_loop_total (length atr) atr 2 (get_or atr 1 0 / 16) true false (omega arith)
              (ground (arith, long)) refl in
          let ended = seen.1 in let kept = seen.2 in ground (arith, long, ended, kept)
    ]
