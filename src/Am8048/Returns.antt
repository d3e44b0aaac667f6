-- ===== src/Am8048/Returns.antt =====
-- Returns on the stack of frames.
use coin_line_emu.Base.Bits.{bit_or_high_field, bit_or_low_field}
use coin_line_emu.Base.{
  ℕ, ◌+◌, ◌*◌, ◌/◌, ◌%◌, ◌<◌, ◌≡◌, sym, subst, ap, ◌∙◌, Bool, true, false, List, ◌∷◌, arith, bit_or,
  if◌then◌else◌, u8, u16, length, get_or, All-get_or,
}
use coin_line_emu.Am8048.{Cpu, read_ram, frame_addr, pop_state}
use coin_line_emu.Am8048.Invariant.{IsByte, WellFormed}
use coin_line_emu.Am8048.Stack.{word, Frame, Holds, Represents, address_in}

-- The pointer that a return reads at.
abbrev popped : Cpu → ℕ
popped c = u8 (bit_or (c.psw / 8 * 8) ((c.psw + 0xffffffff) % 8))

popped_lem : (c : Cpu) → WellFormed c → popped c ≡ c.psw / 8 * 8 + (c.psw + 7) % 8
popped_lem c w =
    omega
      (arith, w.psw_byte, bit_or_high_field 3 (c.psw / 8) ((c.psw + 0xffffffff) % 8) (omega arith))

-- The word that a return reads.
abbrev loaded : Cpu → ℕ
loaded c =
    let sp = frame_addr (popped c) in
    u16 (bit_or (read_ram (u8 (sp + 1)) c * 256) (read_ram (u8 (sp + 0)) c))

loaded_lem : (c : Cpu) → WellFormed c → loaded c ≡ word c.ram ((c.psw % 8 + 7) % 8)
unfolding read_ram
loaded_lem c w =
    let k = (c.psw % 8 + 7) % 8 in
    let sp = frame_addr (popped c) in
    let low : u8 (sp + 0) % length c.ram ≡ k * 2 + 8 =
      address_in (u8 (sp + 0)) (length c.ram) (k * 2 + 8) w.ram_size (omega (arith, popped_lem c w))
        (omega arith) in
    let high : u8 (sp + 1) % length c.ram ≡ k * 2 + 9 =
      address_in (u8 (sp + 1)) (length c.ram) (k * 2 + 9) w.ram_size (omega (arith, popped_lem c w))
        (omega arith) in
    let a : get_or c.ram (u8 (sp + 0) % length c.ram) 0 ≡ get_or c.ram (k * 2 + 8) 0 =
      ap (λ (i : ℕ). get_or c.ram i 0) low in
    let b : get_or c.ram (u8 (sp + 1) % length c.ram) 0 ≡ get_or c.ram (k * 2 + 9) 0 =
      ap (λ (i : ℕ). get_or c.ram i 0) high in
    let al : get_or c.ram (k * 2 + 8) 0 < 256 =
      All-get_or IsByte c.ram (k * 2 + 8) 0 w.ram_bytes (omega arith) in
    let ah : get_or c.ram (k * 2 + 9) 0 < 256 =
      All-get_or IsByte c.ram (k * 2 + 9) 0 w.ram_bytes (omega arith) in
    let joined =
      bit_or_high_field 8 (get_or c.ram (k * 2 + 9) 0) (get_or c.ram (k * 2 + 8) 0) (omega arith) in
    ap (λ (x : ℕ). u16 (bit_or (x * 256) (get_or c.ram (u8 (sp + 0) % length c.ram) 0))) b
    ∙ ap (λ (x : ℕ). u16 (bit_or (get_or c.ram (k * 2 + 9) 0 * 256) x)) a
    ∙ omega (arith, joined)

-- On a stack with a newest frame, `pop_state` goes to its address, leaves the older frames, and
-- restores the upper half of the status word when asked to, which it else keeps.
pub pop_state-Represents :
    (c : Cpu) (retr : Bool) (f : Frame) (fs : List Frame)
    → WellFormed c
    → Represents c (f ∷ fs)
    → let d = pop_state retr c in
      (d.pc ≡ f.address) × (d.psw / 16 ≡ (if retr then f.status else c.psw / 16)) × Represents d fs
unfolding pop_state read_ram
pop_state-Represents c retr f fs w ((valid, frames), (newest, held)) =
    let full : loaded c ≡ f.status * 4096 + f.address = loaded_lem c w ∙ newest in
    let merged = bit_or_low_field 4 (loaded c / 4096 % 16) (popped c % 16) (omega arith) in
    let address : loaded c % 4096 ≡ f.address = omega (arith, full, valid.address_bound) in
    let pointer : popped c % 8 ≡ (c.psw % 8 + 7) % 8 = omega (arith, popped_lem c w) in
    let whole : popped c / 16 ≡ c.psw / 16 = omega (arith, popped_lem c w, w.psw_byte) in
    let restored : u8 (bit_or (popped c % 16) (loaded c / 4096 % 16 * 16))
        ≡ f.status * 16 + popped c % 16 =
      omega (arith, merged, full, valid.address_bound, valid.status_bound) in
    let kept : Holds c.ram (popped c % 8) fs =
      subst (λ (k : ℕ). Holds c.ram k fs) (sym pointer) held in
    elim retr
      as (λ (b : Bool).
        ((pop_state b c).pc ≡ f.address)
        × ((pop_state b c).psw / 16 ≡ (if b then f.status else c.psw / 16))
        × Represents (pop_state b c) fs) [
          | false ↦ (address, whole, (frames, kept))
          | true ↦ (
            address,
            omega (arith, restored),
            (frames, subst (λ (k : ℕ). Holds c.ram k fs) (omega (arith, restored)) kept),
          )
        ]
