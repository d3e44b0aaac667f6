-- ===== src/Voice/Phrase.antt =====
-- The directory of the voice memory, src/mame/coinline/millennium_voiceware_phrase_lookup.cpp.
pub mod Search
use coin_line_emu.Base.{
  ℕ, zero, suc, ◌+◌, ◌-◌, ◌*◌, ◌%◌, ◌<◌, ◌≤◌, ◌≡◌, Bool, not, ◌&&◌, ◌||◌, Option, none, some, List,
  ltb, leb, ◌==◌, if◌then◌else◌, length, get_or, tests, u8, arith,
}
use coin_line_emu.Base.Text.{◌>>=◌}

abbrev pub window_bytes : ℕ
window_bytes = 0x20000

abbrev pub byte_at : List ℕ → ℕ → ℕ
byte_at rom i = get_or rom i 0

abbrev pub segment_magic_ok : List ℕ → ℕ → Bool
segment_magic_ok rom abs0 =
    byte_at rom (abs0 + 1) == 0x5a
    && byte_at rom (abs0 + 2) == 0xa5
    && byte_at rom (abs0 + 3) == 0x69
    && byte_at rom (abs0 + 4) == 0x55

abbrev pub segment_count : List ℕ → ℕ → ℕ
segment_count rom abs0 = byte_at rom abs0 + 1

-- A segment whose directory is not used.
abbrev pub is_skipped : List ℕ → ℕ → Bool
is_skipped rom abs0 =
    not (segment_magic_ok rom abs0)
    || ltb 0x7f (byte_at rom abs0)
    || leb window_bytes (5 + 2 * segment_count rom abs0)

-- The segment that has a message, and the message's index in it.
pub record Place : Type 0 where
  pub segment : ℕ
  pub msg_index : ℕ

-- The loop over the segments from `seg` on.
unfoldable pub find_segment : ℕ → ℕ → List ℕ → ℕ → ℕ → Option Place
find_segment zero seg rom chip_base remaining = none
find_segment (suc left) seg rom chip_base remaining =
    let abs0 = chip_base + seg * window_bytes in
    let skipped = find_segment left (seg + 1) rom chip_base remaining in
    let later = find_segment left (seg + 1) rom chip_base (remaining - segment_count rom abs0) in
    if ltb (length rom) (abs0 + 6)
    then none
    else if is_skipped rom abs0
    then skipped
    else if ltb remaining (segment_count rom abs0)
    then some (record { segment = seg; msg_index = remaining })
    else later

-- `coinline_voiceware_phrase_lookup_result`
pub record Lookup : Type 0 where
  pub upd_sample_index : ℕ
  pub resolved_segment_index : ℕ
  pub segment_base_abs : ℕ
  pub msg_count : ℕ
  pub phrase_msg_index : ℕ

unfoldable pub chip_base_of : ℕ → ℕ
chip_base_of bank_latch = if tests bank_latch 0x08 then 0x100000 else 0

-- The checks behind the loop.
unfoldable pub resolve : List ℕ → ℕ → Place → Option Lookup
resolve rom bank_latch place =
    let chip_base = chip_base_of bank_latch in
    let abs0 = chip_base + place.segment * window_bytes in
    let dir_offset = 5 + 2 * place.msg_index in
    let msg_offset =
      (byte_at rom (abs0 + dir_offset) * 256 + byte_at rom (abs0 + dir_offset + 1)) * 2 in
    if not (abs0 == chip_base + bank_latch % 8 * window_bytes)
      || leb (segment_count rom abs0) place.msg_index
      || ltb window_bytes (dir_offset + 2)
      || ltb (length rom) (abs0 + dir_offset + 2)
      || leb (length rom) (abs0 + msg_offset + 1)
      || not (byte_at rom (abs0 + msg_offset) == 0)
    then none
    else some (record {
      upd_sample_index = u8 place.msg_index;
      resolved_segment_index = place.segment;
      segment_base_abs = abs0;
      msg_count = segment_count rom abs0;
      phrase_msg_index = u8 place.msg_index;
    })

unfoldable pub lookup_phrase : List ℕ → ℕ → ℕ → Option Lookup
lookup_phrase rom bank_latch phrase =
    if ltb (length rom) 6
    then none
    else find_segment 8 0 rom (chip_base_of bank_latch) phrase >>= λ place.
        resolve rom bank_latch place
