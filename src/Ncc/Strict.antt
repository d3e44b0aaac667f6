-- ===== src/Ncc/Strict.antt =====
-- What the decoder accepts, against the encoder.
use mathlib.Core.List.{append-nil}
use coin_line_emu.Base.{
  ℕ, zero, suc, ◌+◌, ◌-◌, ◌*◌, ◌/◌, ◌%◌, ◌^◌, ◌≤◌, ◌<◌, ◌≡◌, refl, sym, subst, ◌∙◌, ap, List, [],
  ◌++◌, arith, length, get_or, All, All-get_or, bit_or, u16,
}
use coin_line_emu.Base.Bits.{bit_or_low_field}
use coin_line_emu.Ncc.{Frame, ok, stx, etx, compute_crc16, encode, read_bytes, decode_body, decode}
use coin_line_emu.Ncc.Codec.{IsByte, IsFrame, image, encoded_image, read_bytes-front}

length-read_bytes : (w : List ℕ) (s n : ℕ) → length (read_bytes w s n) ≡ n
unfolding read_bytes
length-read_bytes w s zero = refl
length-read_bytes w s (suc n) = ap suc (length-read_bytes w (s + 1) n)

read_bytes-split :
    (w : List ℕ) (s n m : ℕ) → read_bytes w s (n + m) ≡ read_bytes w s n ++ read_bytes w (s + n) m
unfolding read_bytes
read_bytes-split w s zero m =
    let none_read : 0 + m ≡ m = omega arith in
    let here : s + 0 ≡ s = omega arith in rw (none_read, here)
read_bytes-split w s (suc n) m =
    let more : suc n + m ≡ suc (n + m) = omega arith in
    let there : s + suc n ≡ s + 1 + n = omega arith in
    rw (more, there, read_bytes-split w (s + 1) n m)

read_bytes-whole : (w : List ℕ) → read_bytes w 0 (length w) ≡ w
read_bytes-whole w =
    ap (λ (v : List ℕ). read_bytes v 0 (length w)) (sym (append-nil w)) ∙ read_bytes-front w []

-- A wire image is put together from the parts that the decoder reads.
parts :
    (w : List ℕ) (p : ℕ)
    → length w ≡ p + 11
    → get_or w 0 0 ≡ stx
    → get_or w (8 + p + 2) 0 ≡ etx
    → w
      ≡ image
          (get_or w 1 0)
          (get_or w 2 0)
          (read_bytes w 3 5)
          (read_bytes w 8 p)
          (get_or w (8 + p) 0)
          (get_or w (8 + p + 1) 0)
unfolding read_bytes
parts w p size first last =
    let cut : length w ≡ 3 + (5 + (p + 3)) = omega arith in
    let last_at : get_or w (8 + p + 1 + 1) 0 ≡ etx =
      let same : 8 + p + 1 + 1 ≡ 8 + p + 2 = omega arith in rw same last in
    let split : read_bytes w 0 (3 + (5 + (p + 3)))
        ≡ read_bytes w 0 3 ++ (read_bytes w 3 5 ++ (read_bytes w 8 p ++ read_bytes w (8 + p) 3)) =
      read_bytes-split w 0 3 (5 + (p + 3))
      ∙ ap (λ (t : List ℕ). read_bytes w 0 3 ++ t)
          (read_bytes-split w 3 5 (p + 3)
            ∙ ap (λ (t : List ℕ). read_bytes w 3 5 ++ t) (read_bytes-split w 8 p 3)) in
    sym (read_bytes-whole w) ∙ ap (read_bytes w 0) cut ∙ split ∙ ground arith

-- The checks that an accepted image has passed.
record Accepted (w : List ℕ) (f : Frame) : Type 0 where
  size : length w ≡ get_or w 2 0 + 3
  count_low : 8 ≤ get_or w 2 0
  count_high : get_or w 2 0 ≤ 253
  first : get_or w 0 0 ≡ stx
  last : get_or w (length w - 1) 0 ≡ etx
  frame : f ≡ record {
    control = get_or w 1 0;
    term_id = read_bytes w 3 5;
    payload = read_bytes w 8 (get_or w 2 0 - 8);
  }
  crc :
      u16 (
        bit_or
          (get_or w (8 + (get_or w 2 0 - 8)) 0)
          (get_or w (8 + (get_or w 2 0 - 8) + 1) 0 * 2 ^ 8))
      ≡ compute_crc16
          (get_or w 1 0)
          (get_or w 2 0)
          (read_bytes w 3 5)
          (read_bytes w 8 (get_or w 2 0 - 8))

decode-Accepted : (w : List ℕ) (f : Frame) → decode w ≡ ok f → Accepted w f
unfolding decode decode_body
decode-Accepted w f h = ground arith

-- An image that the decoder accepts is, byte for byte, what the encoder writes for the frame that
-- it returns; that frame has a five-byte terminal id and a payload of at most 245 bytes.
pub encode-decode :
    (w : List ℕ) (f : Frame) → All IsByte w → decode w ≡ ok f → (encode f ≡ w) × IsFrame f
encode-decode w f bytes h =
    let a = decode-Accepted w f h in
    let p = get_or w 2 0 - 8 in
    let lo = get_or w (8 + p) 0 in
    let hi = get_or w (8 + p + 1) 0 in
    let lo_byte : lo < 256 = All-get_or IsByte w (8 + p) 0 bytes (omega arith) in
    let hi_byte : hi < 256 = All-get_or IsByte w (8 + p + 1) 0 bytes (omega arith) in
    let g : Frame = record {
      control = get_or w 1 0;
      term_id = read_bytes w 3 5;
      payload = read_bytes w 8 p;
    } in
    let v : IsFrame g = record {
      terminal = length-read_bytes w 3 5;
      fits = omega (arith, length-read_bytes w 8 p, a.count_high);
    } in
    let joined : u16 (bit_or lo (hi * 2 ^ 8)) ≡ hi * 256 + lo =
      ground (arith, bit_or_low_field 8 hi lo) in
    let len : length (read_bytes w 8 p) + 8 ≡ get_or w 2 0 =
      omega (arith, length-read_bytes w 8 p, a.count_low) in
    let crc : compute_crc16 g.control (get_or w 2 0) g.term_id g.payload ≡ hi * 256 + lo =
      sym a.crc ∙ joined in
    let low : (hi * 256 + lo) % 256 ≡ lo = omega arith in
    let high : (hi * 256 + lo) / 256 % 256 ≡ hi = omega arith in
    let last : get_or w (8 + p + 2) 0 ≡ etx =
      let at : length w - 1 ≡ 8 + p + 2 = omega (arith, a.size, a.count_low) in rw at at a.last in
    let whole = parts w p (omega (arith, a.size, a.count_low)) a.first last in
    (
      ap encode a.frame ∙ encoded_image g v ∙ rw (len, crc, low, high) (sym whole),
      subst IsFrame (sym a.frame) v,
    )
