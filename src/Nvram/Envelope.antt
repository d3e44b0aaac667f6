-- ===== src/Nvram/Envelope.antt =====
-- The JSON envelope of the store: reading and writing it.
use Prim.Native.String.{String}
use coin_line_emu.Base.{
  ℕ, zero, suc, ◌+◌, ◌-◌, ◌*◌, ◌/◌, ◌%◌, Bool, true, false, not, ◌&&◌, ◌||◌, Option, none, some,
  List, [], ◌∷◌, ◌++◌, bit_or, drop, take, length, replicate, ltb, leb, ◌==◌, if◌then◌else◌,
}
use coin_line_emu.Base.Text.{
  ◌>>=◌, bytes, text_eq, is_empty, find_text_from, find_char_from, skip_spaces,
}
use coin_line_emu.Card.Fixture.{quoted, parse_json_string, read_digits, or_else}
use coin_line_emu.Nvram.{
  Nvram, NvramError, invalid_size, nvram_size_differs, missing_checksum, invalid_base64,
  bad_checksum, unsupported_algorithm, checksum_mismatch, compute_sum8, recover_default_cleared,
}
use coin_line_emu.Nvram.Base64.{base64_decode, base64_encode}

-- A number without digits is 0; only the end of the text is an error.
abbrev pub digits_or_end : List ℕ → Option ℕ
digits_or_end [] = none
digits_or_end (c ∷ cs) = some (read_digits (c ∷ cs) 0)

unfoldable pub parse_json_uint : List ℕ → String → Option ℕ
parse_json_uint json key = do
  kpos ← find_text_from (quoted key) json 0
  colon ← find_char_from b':' json kpos
  digits_or_end (skip_spaces (drop (colon + 1) json))

-- The value of a hexadecimal digit.
unfoldable pub hex_value : ℕ → Option ℕ
hex_value c =
    if leb b'0' c && leb c b'9'
    then some (c - b'0')
    else if leb b'A' c && leb c b'F'
    then some (c - b'A' + 10)
    else if leb b'a' c && leb c b'f'
    then some (c - b'a' + 10)
    else none

-- The loop of `parse_hex_u8`.
unfoldable pub hex_from : ℕ → List ℕ → Option ℕ
hex_from v [] = some v
hex_from v (c ∷ cs) = elim (hex_value c) [
  | none ↦ none
  | some d ↦
      let v' = bit_or (v * 16) d in elim (ltb 0xff v') [ true ↦ none | false ↦ hex_from v' cs ]
]

-- The text behind a prefix `0x`.
abbrev pub skip_prefix : List ℕ → List ℕ
skip_prefix (a ∷ b ∷ cs) = if a == b'0' && (b == b'x' || b == b'X') then cs else a ∷ b ∷ cs
skip_prefix cs = cs

unfoldable pub parse_hex_u8 : List ℕ → Option ℕ
parse_hex_u8 hex = if is_empty (skip_prefix hex) then none else hex_from 0 (skip_prefix hex)

-- The decoded bytes, cut or filled up to the size.
abbrev pub resize : ℕ → List ℕ → List ℕ
resize size bs = take size bs ++ replicate (size - length bs) 0

-- What loading yields: the object, whether it returns true, and the error text.
abbrev pub Loaded : Type 0
Loaded = Nvram × Bool × Option NvramError

-- The comparison with the checksum that the envelope names.
abbrev pub compare_sum8 : Option ℕ → Nvram → Loaded
compare_sum8 none m = (m, false, some bad_checksum)
compare_sum8 (some expected) m =
    let got = compute_sum8 m.nvram in
    if not (got == expected)
    then (record m { checksum_failed = true }, true, some (checksum_mismatch expected got))
    else (m, true, none)

unfoldable pub check_algorithm : List ℕ → List ℕ → Nvram → Loaded
check_algorithm algo checksum m =
    if text_eq algo (bytes "none")
    then (m, true, none)
    else if text_eq algo (bytes "sum8")
    then compare_sum8 (parse_hex_u8 checksum) m
    else (m, false, some unsupported_algorithm)

-- A text that is no base64 leaves an empty store.
unfoldable pub load_bytes : ℕ → List ℕ → List ℕ → Option (List ℕ) → Nvram → Loaded
load_bytes size algo checksum none m = (record m { nvram = [] }, false, some invalid_base64)
load_bytes size algo checksum (some bs) m =
    check_algorithm algo checksum (record m { nvram = resize size bs })

unfoldable pub load_data : ℕ → List ℕ → List ℕ → List ℕ → Nvram → Loaded
load_data size algo checksum payload m0 =
    let m = record m0 { nvram = replicate size 0 } in
    if is_empty payload
    then (recover_default_cleared m, true, none)
    else load_bytes size algo checksum (base64_decode payload) m

-- The steps behind a valid size.
unfoldable pub load_fields : ℕ → List ℕ → Nvram → Loaded
load_fields size json m =
    let algo = or_else (parse_json_string json "checksum_algorithm") (bytes "sum8") in
    let payload = or_else (parse_json_string json "data_b64") [] in
    elim (parse_json_string json "checksum_value") [
      | none ↦ (m, false, some missing_checksum)
      | some checksum ↦ load_data size algo checksum payload m
    ]

unfoldable pub load_envelope_json : List ℕ → Nvram → Loaded
load_envelope_json json m0 =
    let m = record m0 { checksum_failed = false; use_sum8_envelope = false } in
    let size = or_else (parse_json_uint json "size") 0 in
    if size == 0
    then (m, false, some invalid_size)
    else if not (m.layout.nvram_size == 0) && not (size == m.layout.nvram_size)
    then (m, false, some nvram_size_differs)
    else load_fields size json m

-- A number in decimal. Its digits are fewer than the number, but for 0, which needs no turn.
unfoldable pub decimal_from : ℕ → ℕ → List ℕ → List ℕ
decimal_from zero n rest = (b'0' + n % 10) ∷ rest
decimal_from (suc fuel) n rest =
    let more = decimal_from fuel (n / 10) ((b'0' + n % 10) ∷ rest) in
    if ltb n 10 then (b'0' + n % 10) ∷ rest else more

unfoldable pub decimal : ℕ → List ℕ
decimal n = decimal_from n n []

-- `digits[d]`
abbrev pub upper_digit : ℕ → ℕ
upper_digit d = if ltb d 10 then b'0' + d else b'A' + (d - 10)

unfoldable pub append_hex_byte : ℕ → List ℕ
append_hex_byte b = upper_digit (b / 16 % 16) ∷ upper_digit (b % 16) ∷ []

unfoldable pub save_envelope_json : Nvram → List ℕ
save_envelope_json m =
    bytes "{\n  \"version\": \"1.0\",\n  \"size\": "
    ++ (decimal (length m.nvram)
        ++ (bytes ",\n  \"checksum_algorithm\": \"sum8\",\n  \"checksum_value\": \"0x"
            ++ (append_hex_byte (compute_sum8 m.nvram)
                ++ (bytes "\",\n  \"data_b64\": \""
                    ++ (base64_encode m.nvram ++ bytes "\"\n}\n")))))
