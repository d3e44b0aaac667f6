-- ===== src/Microwire/Command.antt =====
-- src/mame/coinline/millennium_eprm_command.h, and the recognition of erase/write-enable bodies in
-- millennium_microwire_93c66.cpp.
use coin_line_emu.Base.{
  ℕ, zero, suc, ◌*◌, ◌/◌, ◌%◌, ◌^◌, Bool, false, ◌||◌, bit_or, ◌==◌, if◌then◌else◌, u8, u16, bit_of,
  tests, is_odd,
}

-- One pass of `RRA` in the encoder: the carry comes in at the top.
abbrev rotate_in : ℕ → Bool → ℕ
rotate_in a cy = u8 (bit_or (a / 2) (if cy then 0x80 else 0))

-- The loops that move the top bits of `h` into `body10`, one for each round left.
shift_out : ℕ → ℕ → ℕ → ℕ
shift_out zero h body10 = body10
shift_out (suc left) h body10 =
    shift_out left (u8 (h * 2)) (u16 (bit_or (body10 * 2) (bit_of (tests h 0x80))))

-- `millennium_eprm_command_body11`; the first carry is overwritten before it is used.
unfoldable pub eprm_command_body11 : ℕ → ℕ → ℕ
unfolding shift_out
eprm_command_body11 opcode_byte byte_offset =
    let c1 = byte_offset / 2 in
    let cy1 = is_odd c1 in
    let c2 = c1 / 2 in
    let a1 = rotate_in 0 cy1 in
    let cy2 = is_odd c2 in
    let c3 = c2 / 2 in
    let a2 = rotate_in a1 cy2 in
    let h = u8 (bit_or opcode_byte c3) in
    let body10 = shift_out 8 h 0 in
    let body10' = shift_out 2 a2 body10 in u16 (body10' * 2 % 2 ^ 11)

-- The image on the wire, behind the start bit that stands in bit 10.
unfoldable pub wire_body : ℕ → ℕ → ℕ
unfolding eprm_command_body11
wire_body opcode_byte c = u16 (bit_or 0x400 (eprm_command_body11 opcode_byte c / 2 % 2 ^ 10))

-- The loop of `microwire_wire_body_is_eprm_ewen`, over the offsets below `n`.
unfoldable pub ewen_below : ℕ → ℕ → Bool
ewen_below zero body = false
ewen_below (suc n) body = wire_body 0x30 n == body || ewen_below n body

unfoldable pub is_eprm_ewen : ℕ → Bool
unfolding ewen_below wire_body
is_eprm_ewen body = ewen_below 256 body
