-- ===== src/Smartcard/Fixture.antt =====
-- Reading a smart-card fixture. The source repeats the JSON readers of the magnetic card reader.
use coin_line_emu.Base.Text.{is_empty, is_space}
use coin_line_emu.Base.{
  ℕ, ◌+◌, ◌-◌, ◌*◌, Bool, true, false, not, ◌&&◌, Option, none, some, List, [], ◌∷◌, ◌++◌, bit_or,
  leb, if◌then◌else◌,
}
use coin_line_emu.Card.Fixture.{parse_json_string, parse_json_uint, parse_json_bool, or_else}
use coin_line_emu.Smartcard.{Smartcard, SmartFixture, default_fixture, memory_name}

-- `hv`: the value of a hexadecimal digit
unfoldable pub hv : ℕ → Option ℕ
hv c =
    if leb b'0' c && leb c b'9'
    then some (c - b'0')
    else if leb b'A' c && leb c b'F'
    then some (10 + (c - b'A'))
    else if leb b'a' c && leb c b'f'
    then some (10 + (c - b'a'))
    else none

abbrev pub both : Option ℕ → Option ℕ → Option ℕ
both (some h) (some l) = some (bit_or (h * 16) l)
both _ _ = none

-- `parse_hex_byte_pair` on a token of two characters
unfoldable pub parse_hex_byte_pair : ℕ → ℕ → Option ℕ
parse_hex_byte_pair h l = both (hv h) (hv l)

-- The loop of `parse_atr_hex`: the token so far, which is empty or one character, and the bytes.
unfoldable pub atr_loop : List ℕ → List ℕ → List ℕ → List ℕ × Bool
atr_loop [] tok out = (out, is_empty tok && not (is_empty out))
atr_loop (c ∷ s) tok out = elim (is_space c) [
  | true ↦ atr_loop s [] out
  | false ↦ elim tok [
    | [] ↦ atr_loop s (c ∷ []) out
    | h ∷ _ ↦ elim (parse_hex_byte_pair h c) [
      | none ↦ (out, false)
      | some b ↦ atr_loop s [] (out ++ b ∷ [])
    ]
  ]
]

unfoldable pub parse_atr_hex : List ℕ → List ℕ × Bool
parse_atr_hex s = atr_loop s [] []

-- The loop of `parse_memory_hex`.
unfoldable pub memory_loop : List ℕ → List ℕ → List ℕ × Bool
memory_loop [] out = (out, true)
memory_loop (c ∷ []) out = (out, is_space c)
memory_loop (c ∷ d ∷ s) out = elim (is_space c) [
  | true ↦ memory_loop (d ∷ s) out
  | false ↦ elim (parse_hex_byte_pair c d) [
    | none ↦ (out, false)
    | some b ↦ memory_loop s (out ++ b ∷ [])
  ]
]

unfoldable pub parse_memory_hex : List ℕ → List ℕ × Bool
parse_memory_hex s = memory_loop s []

-- `error_out`
pub data SmartFixtureError : Type 0 where
  missing_atr_hex bad_atr_hex bad_memory_hex : SmartFixtureError

-- The memory's bytes, and whether they were read.
abbrev pub memory_bytes : Option (List ℕ) → List ℕ × Bool
memory_bytes none = ([], true)
memory_bytes (some mem) = if is_empty mem then ([], true) else parse_memory_hex mem

-- The fields behind the memory.
abbrev pub read_delays : List ℕ → SmartFixture → SmartFixture
read_delays json fixture = record fixture {
  atr_delay_us = or_else (parse_json_uint json "atr_delay_us") 4000;
  apdu_response_delay_us = or_else (parse_json_uint json "apdu_response_delay_us") 1000;
  requires_authorization = or_else (parse_json_bool json "requires_authorization") false;
}

-- The steps behind the answer's text. An error leaves what was read so far.
unfoldable pub read_atr : List ℕ → List ℕ → SmartFixture → SmartFixture × Option SmartFixtureError
read_atr json atrs fixture =
    let (atr, atr_ok) = parse_atr_hex atrs in
    let (mem, mem_ok) = memory_bytes (parse_json_string json "memory_hex") in
    let with_atr = record fixture { atr = atr } in
    let with_memory = record with_atr { memory = mem } in
    if not atr_ok
    then (with_atr, some bad_atr_hex)
    else if not mem_ok
    then (with_memory, some bad_memory_hex)
    else (read_delays json with_memory, none)

unfoldable pub parse_fixture_json : List ℕ → Smartcard → Smartcard × Option SmartFixtureError
parse_fixture_json json m =
    let named = record default_fixture {
      protocol = or_else (parse_json_string json "protocol") memory_name;
    } in
    elim (parse_json_string json "atr_hex") [
      | none ↦ (record m { fixture = named }, some missing_atr_hex)
      | some atrs ↦
          let (fixture, e) = read_atr json atrs named in (record m { fixture = fixture }, e)
    ]
