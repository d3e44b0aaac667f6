-- ===== src/Card/Fixture.antt =====
-- The fixture's text, and loading it.
use Prim.Native.String.{String}
use coin_line_emu.Base.{
  ℕ, ◌+◌, ◌-◌, ◌*◌, Bool, true, false, Option, none, some, List, [], ◌∷◌, ◌++◌, bit_xor, drop, ltb,
  ◌==◌, if◌then◌else◌, u8, u32,
}
use coin_line_emu.Base.Text.{
  ◌>>=◌, bytes, is_digit, find_char_from, find_text_from, skip_spaces, substr,
}
use coin_line_emu.Card.{
  Card, MagFixture, default_fixture, xor_lrc_byte, track_xor_ok, rebuild_bits_from_track,
}

-- A key with its quotes.
abbrev pub quoted : String → List ℕ
quoted key = b'"' ∷ bytes key ++ b'"' ∷ []

unfoldable pub parse_json_string : List ℕ → String → Option (List ℕ)
parse_json_string json key = do
  kpos ← find_text_from (quoted key) json 0
  colon ← find_char_from b':' json kpos
  q1 ← find_char_from b'"' json colon
  q2 ← find_char_from b'"' json (q1 + 1)
  some (substr json (q1 + 1) (q2 - q1 - 1))

-- The digits' loop: `v = v * 10 + digit` in 32 bits.
unfoldable pub read_digits : List ℕ → ℕ → ℕ
read_digits [] v = v
read_digits (c ∷ cs) v =
    let rest = read_digits cs (u32 (v * 10 + (c - b'0'))) in if is_digit c then rest else v

abbrev pub digits_at : List ℕ → Option ℕ
digits_at [] = none
digits_at (c ∷ cs) = if is_digit c then some (read_digits (c ∷ cs) 0) else none

unfoldable pub parse_json_uint : List ℕ → String → Option ℕ
parse_json_uint json key = do
  kpos ← find_text_from (quoted key) json 0
  colon ← find_char_from b':' json kpos
  digits_at (skip_spaces (drop (colon + 1) json))

-- `p != npos && p < limit`
abbrev pub before : Option ℕ → ℕ → Bool
before none limit = false
before (some p) limit = ltb p limit

unfoldable pub bool_at : List ℕ → ℕ → Option Bool
bool_at json colon =
    if before (find_text_from (bytes "true") json colon) (colon + 20)
    then some true
    else if before (find_text_from (bytes "false") json colon) (colon + 22)
    then some false
    else none

unfoldable pub parse_json_bool : List ℕ → String → Option Bool
parse_json_bool json key = do
  kpos ← find_text_from (quoted key) json 0
  colon ← find_char_from b':' json kpos
  bool_at json colon

abbrev pub or_else {ℓ} : {A : Type ℓ} → Option A → A → A
or_else none d = d
or_else (some a) d = a

-- `error_out`
pub data FixtureError : Type 0 where
  missing_payload_body bit_rate_is_zero : FixtureError

-- The track with its check byte.
unfoldable pub add_lrc : MagFixture → MagFixture
add_lrc fix =
    let lrc = xor_lrc_byte fix.payload_track_ascii in
    record fix {
      payload_track_ascii =
          fix.payload_track_ascii
          ++ (if fix.force_lrc_error then u8 (bit_xor lrc 0x5a) else lrc) ∷ [];
    }

-- The steps behind the last check.
unfoldable pub finish_fixture : MagFixture → Card → Card
finish_fixture fix m =
    let checked = add_lrc fix in
    rebuild_bits_from_track
      (record m { fix = checked; lrc_ok = track_xor_ok checked.payload_track_ascii })

-- An error leaves what was read so far.
unfoldable pub parse_fixture_json : List ℕ → Card → Card × Option FixtureError
parse_fixture_json json m = elim (parse_json_string json "payload_body") [
  | none ↦ (record m { fix = default_fixture }, some missing_payload_body)
  | some body ↦
      let started = record default_fixture {
        payload_track_ascii = body;
        track = or_else (parse_json_uint json "track") 2;
        swipe_duration_ms = or_else (parse_json_uint json "swipe_duration_ms") 350;
      } in
      let bps = or_else (parse_json_uint json "bit_rate_bps") 210 in
      if bps == 0 then (record m { fix = started }, some bit_rate_is_zero) else (
        finish_fixture
            (record started {
              bit_rate_bps = bps;
              force_lrc_error = or_else (parse_json_bool json "force_lrc_error") false;
              force_parity_error = or_else (parse_json_bool json "force_parity_error") false;
            })
            m,
        none,
      )
]
