-- ===== src/Ncc.antt =====
-- The framing of src/mame/coinline/millennium_modem_ncc.{h,cpp}: CRC, encoder and strict decoder.
pub mod Codec
pub mod Strict
pub mod Session
use coin_line_emu.Base.{
  ℕ, zero, suc, ◌+◌, ◌-◌, ◌*◌, ◌/◌, ◌%◌, ◌^◌, Bool, List, [], ◌∷◌, ◌++◌, bit_or, bit_xor, ltb, ◌==◌,
  if◌then◌else◌, not, length, get_or, u8, u16, is_odd,
}

abbrev pub stx : ℕ
stx = 0x02

abbrev pub etx : ℕ
etx = 0x03

abbrev pub term_id_bytes : ℕ
term_id_bytes = 5

abbrev pub max_packet_size : ℕ
max_packet_size = 256

abbrev pub max_payload_size : ℕ
max_payload_size = 245

-- `ncc_frame_fields`; the terminal id is an array of five bytes.
pub record Frame : Type 0 where
  pub control : ℕ
  pub term_id : List ℕ
  pub payload : List ℕ

-- The inner loop of the CRC step, with `rounds` rounds left.
unfoldable pub crc_rounds : ℕ → ℕ → ℕ
crc_rounds zero crc = crc
crc_rounds (suc rounds) crc =
    crc_rounds rounds (if is_odd crc then u16 (bit_xor (crc / 2) 0xa001) else u16 (crc / 2))

unfoldable pub crc_step : ℕ → ℕ → ℕ
crc_step crc b = crc_rounds 8 (bit_xor crc b)

unfoldable pub crc_bytes : ℕ → List ℕ → ℕ
crc_bytes crc [] = crc
crc_bytes crc (b ∷ bs) = crc_bytes (crc_step crc b) bs

unfoldable pub compute_crc16 : ℕ → ℕ → List ℕ → List ℕ → ℕ
compute_crc16 control count term_id payload =
    crc_bytes (crc_bytes (crc_step (crc_step 0xffff control) count) term_id) payload

-- The bytes that `encode` pushes.
unfoldable pub encoded : Frame → List ℕ
encoded f =
    let count = u8 (1 + term_id_bytes + length f.payload + 2) in
    let crc = compute_crc16 f.control count f.term_id f.payload in
    stx
    ∷ f.control
    ∷ count
    ∷ (f.term_id ++ (f.payload ++ (crc % 256 ∷ crc / 2 ^ 8 % 256 ∷ etx ∷ [])))

-- The empty result stands for a frame that cannot be sent.
unfoldable pub encode : Frame → List ℕ
encode f =
    if ltb max_payload_size (length f.payload)
    then []
    else if ltb max_packet_size (length (encoded f))
    then []
    else encoded f

-- The texts of `error`.
pub data Error : Type 0 where
  too_short too_large missing_stx missing_etx invalid_count count_mismatch : Error
  payload_too_large crc_mismatch : Error

pub data Decoded : Type 0 where
  ok : Frame → Decoded
  err : Error → Decoded

-- `wire[start]`, …, `wire[start + n - 1]`; the decoder has compared the size before it reads.
unfoldable pub read_bytes : List ℕ → ℕ → ℕ → List ℕ
read_bytes wire start zero = []
read_bytes wire start (suc n) = get_or wire start 0 ∷ read_bytes wire (start + 1) n

-- The part of `decode` behind the checks of size and count.
unfoldable pub decode_body : List ℕ → ℕ → ℕ → ℕ → Decoded
decode_body wire control count payload_len =
    let term_id = read_bytes wire 3 term_id_bytes in
    let payload = read_bytes wire (3 + term_id_bytes) payload_len in
    let crc_lo = get_or wire (3 + term_id_bytes + payload_len) 0 in
    let crc_hi = get_or wire (3 + term_id_bytes + payload_len + 1) 0 in
    let got = u16 (bit_or crc_lo (crc_hi * 2 ^ 8)) in
    let want = compute_crc16 control count term_id payload in
    if got == want
    then ok (record { control = control; term_id = term_id; payload = payload })
    else err crc_mismatch

unfoldable pub decode : List ℕ → Decoded
decode wire =
    let size = length wire in
    let control = get_or wire 1 0 in
    let count = get_or wire 2 0 in
    let payload_len = count - (1 + term_id_bytes + 2) in
    if ltb size (1 + 1 + 1 + term_id_bytes + 2 + 1)
    then err too_short
    else if ltb max_packet_size size
    then err too_large
    else if not (get_or wire 0 0 == stx)
    then err missing_stx
    else if not (get_or wire (size - 1) 0 == etx)
    then err missing_etx
    else if ltb count (1 + term_id_bytes + 2)
    then err invalid_count
    else if not (size == count + 3)
    then err count_mismatch
    else if ltb max_payload_size payload_len
    then err payload_too_large
    else decode_body wire control count payload_len
