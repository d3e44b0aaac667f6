-- ===== src/Card/Load.antt =====
-- The longitudinal check of a loaded fixture.
use coin_line_emu.Base.Bits.{all_below, all_below_sound}
use coin_line_emu.Base.{
  ℕ, ◌<◌, ◌≡◌, refl, true, false, not, none, List, [], ◌∷◌, ◌++◌, arith, bit_xor, ◌==◌, u8,
}
use coin_line_emu.Card.{
  Card, MagFixture, xor_from, xor_lrc_byte, track_xor_ok, rebuild_bits_from_track,
}
use coin_line_emu.Card.Fixture.{add_lrc, finish_fixture, parse_fixture_json}

xor_from-append : (x : ℕ) (cs ds : List ℕ) → xor_from x (cs ++ ds) ≡ xor_from (xor_from x cs) ds
unfolding xor_from
xor_from-append x [] ds = refl
xor_from-append x (c ∷ cs) ds = xor_from-append (u8 (bit_xor x c)) cs ds

xor_from_lt : (x : ℕ) (cs : List ℕ) → x < 256 → xor_from x cs < 256
unfolding xor_from
xor_from_lt x [] h = h
xor_from_lt x (c ∷ cs) h = xor_from_lt (u8 (bit_xor x c)) cs (omega arith)

self_table : (x : ℕ) → x < 256 → u8 (bit_xor x x) ≡ 0
unfolding all_below
self_table x h =
    let entry = all_below_sound 256 (λ i. u8 (bit_xor i i) == 0) x refl h in ground (arith, entry)

forced_table : (x : ℕ) → x < 256 → (u8 (bit_xor x (u8 (bit_xor x 0x5a))) == 0) ≡ false
unfolding all_below
forced_table x h =
    let entry =
      all_below_sound 256 (λ i. not (u8 (bit_xor i (u8 (bit_xor i 0x5a))) == 0)) x refl h in
    ground (arith, entry)

-- A body with its check byte passes the check.
pub track_xor_ok-xor_lrc_byte :
    (body : List ℕ) → track_xor_ok (body ++ xor_lrc_byte body ∷ []) ≡ true
unfolding track_xor_ok xor_lrc_byte xor_from
track_xor_ok-xor_lrc_byte body =
    let sum = xor_from 0 body in
    let below = xor_from_lt 0 body (omega arith) in
    ground (arith, xor_from-append 0 body (sum ∷ []), self_table sum below)

track_xor_ok-forced :
    (body : List ℕ) → track_xor_ok (body ++ u8 (bit_xor (xor_lrc_byte body) 0x5a) ∷ []) ≡ false
unfolding track_xor_ok xor_lrc_byte xor_from
track_xor_ok-forced body =
    let sum = xor_from 0 body in
    let below = xor_from_lt 0 body (omega arith) in
    ground (arith, xor_from-append 0 body (u8 (bit_xor sum 0x5a) ∷ []), forced_table sum below)

finish_fixture-lrc_ok :
    (fix : MagFixture) (m : Card)
    → (finish_fixture fix m).lrc_ok ≡ not (finish_fixture fix m).fix.force_lrc_error
unfolding finish_fixture add_lrc rebuild_bits_from_track
finish_fixture-lrc_ok fix m = ground (
  arith,
  track_xor_ok-xor_lrc_byte fix.payload_track_ascii,
  track_xor_ok-forced fix.payload_track_ascii,
)

-- A fixture that loads without an error has a check byte that is right exactly if no check error
-- is forced.
pub parse_fixture_json-lrc_ok :
    (json : List ℕ) (m : Card)
    → let r = parse_fixture_json json m in r.1 ≡ none → r.0.lrc_ok ≡ not r.0.fix.force_lrc_error
unfolding parse_fixture_json
parse_fixture_json-lrc_ok json m h = grind (arith, finish_fixture-lrc_ok)
