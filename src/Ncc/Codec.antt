-- ===== src/Ncc/Codec.antt =====
-- The decoder of the NCC framing on what its encoder writes.
use coin_line_emu.Base.{
  ℕ, zero, suc, ◌+◌, ◌-◌, ◌*◌, ◌/◌, ◌%◌, ◌≤◌, ◌<◌, ◌≡◌, refl, ◌∙◌, ap, List, [], ◌∷◌, ◌++◌, arith,
  length, length-append, get_or, bit_or, eq_self, is_odd, u8, u16, bit_xor, ◌==◌, if◌then◌else◌,
}
use native.Mathlib.Nat.{zero-add}
use coin_line_emu.Base.Bits.{bit_or_low_field}
use coin_line_emu.Ncc.{
  Frame, Decoded, ok, err, crc_mismatch, stx, etx, crc_rounds, crc_step, crc_bytes, compute_crc16,
  encoded, encode, read_bytes, decode_body, decode,
}

abbrev pub IsByte : ℕ → Type 0
IsByte b = b < 256

-- A frame that the encoder accepts.
pub record IsFrame (f : Frame) : Type 0 where
  pub terminal : length f.term_id ≡ 5
  pub fits : length f.payload ≤ 245

crc_rounds-lt : (n crc : ℕ) → crc_rounds (suc n) crc < 65536
unfolding crc_rounds
crc_rounds-lt zero crc = ground arith
crc_rounds-lt (suc n) crc =
    crc_rounds-lt n (if is_odd crc then u16 (bit_xor (crc / 2) 0xa001) else u16 (crc / 2))

crc_bytes-lt : (crc : ℕ) (bs : List ℕ) → crc < 65536 → crc_bytes crc bs < 65536
unfolding crc_bytes crc_step
crc_bytes-lt crc [] h = h
crc_bytes-lt crc (b ∷ bs) h =
    crc_bytes-lt (crc_rounds 8 (bit_xor crc b)) bs (crc_rounds-lt 7 (bit_xor crc b))

-- The CRC of any message fits its two bytes on the wire.
pub compute_crc16-lt :
    (control count : ℕ) (term_id payload : List ℕ)
    → compute_crc16 control count term_id payload < 65536
unfolding compute_crc16 crc_step
compute_crc16-lt control count term_id payload =
    crc_bytes-lt _ payload (crc_bytes-lt _ term_id (crc_rounds-lt 7 _))

read_bytes-cons : (x : ℕ) (w : List ℕ) (s n : ℕ) → read_bytes (x ∷ w) (suc s) n ≡ read_bytes w s n
unfolding read_bytes
read_bytes-cons x w s zero = refl
read_bytes-cons x w s (suc n) =
    let next : suc s + 1 ≡ suc (s + 1) = omega arith in rw (next, read_bytes-cons x w (s + 1) n)

pub read_bytes-front : (ys post : List ℕ) → read_bytes (ys ++ post) 0 (length ys) ≡ ys
unfolding read_bytes
read_bytes-front [] post = refl
read_bytes-front (y ∷ ys) post =
    rw (read_bytes-cons y (ys ++ post) 0 (length ys), read_bytes-front ys post)

-- Reading a slice of a concatenation.
read_bytes-slice :
    (pre ys post : List ℕ) → read_bytes (pre ++ (ys ++ post)) (length pre) (length ys) ≡ ys
read_bytes-slice [] ys post = read_bytes-front ys post
read_bytes-slice (x ∷ pre) ys post =
    read_bytes-cons x (pre ++ (ys ++ post)) (length pre) (length ys) ∙ read_bytes-slice pre ys post

get_or-append :
    (pre post : List ℕ) (k : ℕ) → get_or (pre ++ post) (length pre + k) 0 ≡ get_or post k 0
get_or-append [] post k = rw (zero-add k)
get_or-append (x ∷ pre) post k =
    let step : suc (length pre) + k ≡ suc (length pre + k) = omega arith in
    rw step (get_or-append pre post k)

-- A wire image by its parts, for any two bytes in the place of the CRC.
abbrev pub image : ℕ → ℕ → List ℕ → List ℕ → ℕ → ℕ → List ℕ
image control count term_id payload lo hi =
    stx ∷ control ∷ count ∷ (term_id ++ (payload ++ (lo ∷ hi ∷ etx ∷ [])))

module _ (control count : ℕ) (term_id payload : List ℕ) (lo hi : ℕ)
    (terminal : length term_id ≡ 5) where
  abbrev wire : List ℕ
  wire = image control count term_id payload lo hi

  image_tail : (k : ℕ) → get_or wire (8 + length payload + k) 0 ≡ get_or (lo ∷ hi ∷ etx ∷ []) k 0
  image_tail k =
      let pre = stx ∷ control ∷ count ∷ term_id in
      let at : 8 + length payload + k ≡ length pre + (length payload + k) = omega arith in
      rw at (
        get_or-append pre (payload ++ (lo ∷ hi ∷ etx ∷ [])) (length payload + k)
        ∙ get_or-append payload (lo ∷ hi ∷ etx ∷ []) k)

  length-image : length wire ≡ length payload + 11
  length-image = omega (
    arith,
    length-append term_id (payload ++ (lo ∷ hi ∷ etx ∷ [])),
    length-append payload (lo ∷ hi ∷ etx ∷ []),
  )

  image_term_id : read_bytes wire 3 5 ≡ term_id
  image_term_id =
      rw (← terminal)
        (read_bytes-slice (stx ∷ control ∷ count ∷ []) term_id (payload ++ (lo ∷ hi ∷ etx ∷ [])))

  image_payload : read_bytes wire 8 (length payload) ≡ payload
  image_payload =
      let pre = stx ∷ control ∷ count ∷ term_id in
      let at : 8 ≡ length pre = omega arith in
      rw at (read_bytes-slice pre payload (lo ∷ hi ∷ etx ∷ []))

  -- The decision on an image that has passed the checks of its size.
  abbrev checked : Decoded
  checked =
      if hi * 256 + lo == compute_crc16 control count term_id payload
      then ok (record { control = control; term_id = term_id; payload = payload })
      else err crc_mismatch

  decode_body-image :
      lo < 256 → hi < 256 → decode_body wire control count (length payload) ≡ checked
  unfolding decode_body
  decode_body-image l h =
      let lo_at : get_or wire (8 + length payload) 0 ≡ lo = ground (arith, image_tail 0) in
      let hi_at : get_or wire (8 + length payload + 1) 0 ≡ hi = image_tail 1 in
      let joined : u16 (bit_or lo (hi * 256)) ≡ hi * 256 + lo =
        ground (arith, bit_or_low_field 8 hi lo) in
      rw (image_term_id, image_payload, lo_at, hi_at, joined)

  -- What the decoder makes of an image that is long enough and of the announced size.
  decode-image :
      count ≡ length payload + 8
      → length payload ≤ 245
      → lo < 256
      → hi < 256
      → decode wire ≡ checked
  unfolding decode
  decode-image size fits l h =
      let last : get_or wire (8 + length payload + 2) 0 ≡ etx = image_tail 2 in
      let n : count - 8 ≡ length payload = omega arith in
      let end : length wire - 1 ≡ 8 + length payload + 2 = omega (arith, length-image) in
      ground (arith, length-image, decode_body-image l h)

-- The image of a frame as the encoder writes it.
pub encoded_image :
    (f : Frame)
    → IsFrame f
    → let crc = compute_crc16 f.control (length f.payload + 8) f.term_id f.payload in
      encode f
      ≡ image f.control (length f.payload + 8) f.term_id f.payload (crc % 256) (crc / 256 % 256)
unfolding encode encoded
encoded_image f v =
    let count : u8 (1 + 5 + length f.payload + 2) ≡ length f.payload + 8 = omega (arith, v.fits) in
    let crc = compute_crc16 f.control (length f.payload + 8) f.term_id f.payload in
    rw count (
      ground (
        arith,
        v.fits,
        length-image f.control (length f.payload + 8) f.term_id f.payload (crc % 256)
            (crc / 256 % 256) v.terminal,
      ))

-- Decoding an encoded frame gives the frame back.
pub decode-encode : (f : Frame) → IsFrame f → decode (encode f) ≡ ok f
decode-encode f v =
    let count = length f.payload + 8 in
    let crc = compute_crc16 f.control count f.term_id f.payload in
    let whole : crc / 256 % 256 * 256 + crc % 256 ≡ crc =
      omega (arith, compute_crc16-lt f.control count f.term_id f.payload) in
    ap decode (encoded_image f v)
    ∙ decode-image f.control count f.term_id f.payload (crc % 256) (crc / 256 % 256) v.terminal refl
        v.fits (omega arith) (omega arith)
    ∙ rw (whole, eq_self)
