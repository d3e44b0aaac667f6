-- ===== src/Pcd/Packing.antt =====
-- What the firmware reads on the ports while a key is pressed.
use coin_line_emu.Base.Bits.{tests-pow, tests-bit_or, tests-bit_and, bit_or_high_field}
use coin_line_emu.Base.Bounds.{bit_or-bound, bit_and-bound}
use coin_line_emu.Base.{
  ap, ◌∙◌, ℕ, zero, suc, ltb, ◌-◌, ◌+◌, ◌*◌, ◌/◌, ◌%◌, ◌^◌, ◌<◌, ◌≡◌, ◌≢◌, refl, Bool, true, false,
  ◌||◌, ◌&&◌, arith, bit_or, bit_and, tests, if◌then◌else◌, List, [], ◌∷◌,
}
use coin_line_emu.Keypad.{Profile}
use coin_line_emu.Pcd.{Pcd, Input}
use coin_line_emu.Pcd.Wire.{
  resolve_wire_opcode, first_opcode, keymatrix_applied_mask, first_softkey, softkey_opcode,
  key_opcodes, rep_opcodes, wire_p1, wire_p2, host_flags, set_input_snapshot, update_tone_mode,
}

wire_p1_lem :
    (off_hook : Bool) (wire : ℕ)
    → wire_p1 off_hook wire ≡ (if off_hook then 0x40 else 0xc0) + wire % 64
unfolding wire_p1
wire_p1_lem true wire = omega (arith, bit_or_high_field 6 1 (wire % 64) (omega arith))
wire_p1_lem false wire = omega (arith, bit_or_high_field 6 3 (wire % 64) (omega arith))

-- A bit of port 2.
wire_p2-bit :
    (k linectrl wire host : ℕ)
    → linectrl < 256
    → host < 256
    → k < 8
    → tests (wire_p2 linectrl wire host) (2 ^ k) ≡ (
        ((tests linectrl (2 ^ k) && tests 0xcf (2 ^ k)) || tests (wire / 64 % 4 * 16) (2 ^ k))
        || tests host (2 ^ k))
unfolding wire_p2
wire_p2-bit k linectrl wire host hl hh hk =
    let low = bit_and linectrl 0xcf in
    let field = wire / 64 % 4 * 16 in
    let a = bit_and-bound 8 linectrl 0xcf hl in
    let b = bit_or-bound 8 low field a (omega arith) in
    let c = bit_or-bound 8 (bit_or low field) host b hh in
    ground (
      arith,
      c,
      tests-bit_or k (bit_or low field) host,
      tests-bit_or k low field,
      tests-bit_and k linectrl 0xcf,
    )

-- Every opcode is a byte.
abbrev bytes_only : List (ℕ × ℕ) → Bool
bytes_only [] = true
bytes_only (entry ∷ entries) = ltb entry.1 256 && bytes_only entries

first_opcode-bound :
    (keys : ℕ) (entries : List (ℕ × ℕ)) (rest : ℕ)
    → bytes_only entries ≡ true
    → rest < 256
    → first_opcode keys entries rest < 256
unfolding first_opcode
first_opcode-bound keys [] rest h hr = hr
first_opcode-bound keys (entry ∷ entries) rest h hr =
    let later = first_opcode-bound keys entries rest (ground (arith, h)) hr in
    ground (arith, h, later)

first_softkey-bound : (n bi sk : ℕ) → first_softkey n bi sk < 256
unfolding first_softkey
first_softkey-bound zero bi sk = omega arith
first_softkey-bound (suc n) bi sk = ground (arith, first_softkey-bound n (bi + 1) sk)

softkey_opcode-bound : (profile : Profile) (softkeys : ℕ) → softkey_opcode profile softkeys < 256
unfolding softkey_opcode
softkey_opcode-bound _ softkeys = ground (arith, first_softkey-bound 12 0 (bit_and softkeys 0x0fff))

resolve-bound :
    (keymatrix : ℕ) (profile : Profile) (softkeys : ℕ)
    → resolve_wire_opcode keymatrix profile softkeys < 256
unfolding resolve_wire_opcode
resolve-bound keymatrix profile softkeys =
    let keys =
      bit_and (bit_and keymatrix (keymatrix_applied_mask profile)) (0xffffffff - 0x00080000) in
    let soft = softkey_opcode profile softkeys in
    first_opcode-bound keys key_opcodes (first_opcode keys rep_opcodes soft) refl
      (first_opcode-bound keys rep_opcodes soft refl (softkey_opcode-bound profile softkeys))

-- The two bits of the opcode on port 2.
wire_p2-field :
    (linectrl wire host : ℕ)
    → linectrl < 256
    → host < 256
    → tests host 0x10 ≡ false
    → tests host 0x20 ≡ false
    → wire_p2 linectrl wire host / 16 % 4 ≡ wire / 64 % 4
wire_p2-field linectrl wire host hl hh h4 h5 =
    let p2 = wire_p2 linectrl wire host in
    let field = wire / 64 % 4 * 16 in
    ground (
      arith,
      wire_p2-bit 4 linectrl wire host hl hh (omega arith),
      wire_p2-bit 5 linectrl wire host hl hh (omega arith),
      tests-pow p2 4,
      tests-pow p2 5,
      tests-pow field 4,
      tests-pow field 5,
    )

-- The flags of the host.
host_flags-bits :
    (i : Input)
    → (tests (host_flags i) 0x10 ≡ false)
      × (tests (host_flags i) 0x20 ≡ false)
      × (tests (host_flags i) 0x40 ≡ i.oos_visible)
      × (tests (host_flags i) 0x80 ≡ i.voice_active)
unfolding host_flags
host_flags-bits i = (ground arith, ground arith, ground arith, ground arith)

host_flags-bound : (i : Input) → host_flags i < 256
unfolding host_flags
host_flags-bound i = omega arith

set_input_snapshot-ports :
    (i : Input) (p0 : Pcd)
    → let wire = resolve_wire_opcode i.keymatrix i.terminal_21_profile i.softkeys in
      let p = set_input_snapshot i p0 in
      wire ≢ 0xff
      → (p.port_p1_in ≡ wire_p1 (tests i.keymatrix 0x00080000) wire)
        × (p.port_p2_in ≡ wire_p2 (i.linectrl % 256) wire (host_flags i))
unfolding set_input_snapshot update_tone_mode
set_input_snapshot-ports i p0 named = (ground (arith, named), ground (arith, named))

-- While the inputs name an opcode, ports 1 and 2 carry it in six and two bits, port 1 the hook in
-- bit 7 and a marker in bit 6, and bits 6 and 7 of port 2 are the host's two flags or the same bits
-- of the line control.
pub set_input_snapshot-packs :
    (i : Input) (p0 : Pcd)
    → i.linectrl < 256
    → resolve_wire_opcode i.keymatrix i.terminal_21_profile i.softkeys ≢ 0xff
    → let wire = resolve_wire_opcode i.keymatrix i.terminal_21_profile i.softkeys in
      let p = set_input_snapshot i p0 in
      (p.port_p1_in % 64 + p.port_p2_in / 16 % 4 * 64 ≡ wire)
      × (p.port_p1_in / 64 ≡ (if tests i.keymatrix 0x00080000 then 1 else 3))
      × (tests p.port_p2_in 0x40 ≡ (tests i.linectrl 0x40 || i.oos_visible))
      × (tests p.port_p2_in 0x80 ≡ (tests i.linectrl 0x80 || i.voice_active))
set_input_snapshot-packs i p0 hl named =
    let off_hook = tests i.keymatrix 0x00080000 in
    let wire = resolve_wire_opcode i.keymatrix i.terminal_21_profile i.softkeys in
    let host = host_flags i in
    let byte = resolve-bound i.keymatrix i.terminal_21_profile i.softkeys in
    let (h4, h5, h6, h7) = host_flags-bits i in
    let hh : host < 256 = host_flags-bound i in
    let (p1, whole) = set_input_snapshot-ports i p0 named in
    let p2 : (set_input_snapshot i p0).port_p2_in ≡ wire_p2 i.linectrl wire host =
      whole ∙ ap (λ (l : ℕ). wire_p2 l wire host) (omega arith) in
    let low = wire_p1_lem off_hook wire in
    let field = wire_p2-field i.linectrl wire host hl hh h4 h5 in
    let b6 = wire_p2-bit 6 i.linectrl wire host hl hh (omega arith) in
    let b7 = wire_p2-bit 7 i.linectrl wire host hl hh (omega arith) in
    let c6 = tests-pow (wire / 64 % 4 * 16) 6 in
    let c7 = tests-pow (wire / 64 % 4 * 16) 7 in
    (
      ground (arith, p1, p2, low, field, byte),
      ground (arith, p1, low),
      ap (λ (x : ℕ). tests x 0x40) p2 ∙ b6 ∙ ground (arith, c6, h6),
      ap (λ (x : ℕ). tests x 0x80) p2 ∙ b7 ∙ ground (arith, c7, h7),
    )
