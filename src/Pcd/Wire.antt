-- ===== src/Pcd/Wire.antt =====
-- The key's wire opcode, its packing on the ports, and the tone that the inputs ask for.
use coin_line_emu.Base.{
  ℕ, zero, suc, ◌+◌, ◌-◌, ◌*◌, ◌/◌, ◌%◌, ◌^◌, Bool, not, ◌&&◌, List, [], ◌∷◌, bit_and, bit_or, ◌==◌,
  if◌then◌else◌, u8, u16, tests, is_odd,
}
use coin_line_emu.Keypad.{Profile, repdial_5, vfd_11line_softkeys}
use coin_line_emu.Pcd.{Pcd, Input, no_tone, nis}

-- `terminal21_keymatrix_applied_mask`
unfoldable pub keymatrix_applied_mask : Profile → ℕ
keymatrix_applied_mask repdial_5 = 0xffffffff - 0x3e000000
keymatrix_applied_mask _ = 0xffffffff

-- The first entry of a table whose mask the keys meet, or what comes behind the table.
unfoldable pub first_opcode : ℕ → List (ℕ × ℕ) → ℕ → ℕ
first_opcode keys [] rest = rest
first_opcode keys (entry ∷ entries) rest =
    let later = first_opcode keys entries rest in
    if not (bit_and keys entry.0 == 0) then entry.1 else later

abbrev pub key_opcodes : List (ℕ × ℕ)
key_opcodes =
    (0x00000001, 0x22)
    ∷ (0x00000002, 0x24)
    ∷ (0x00000004, 0x26)
    ∷ (0x00000008, 0x28)
    ∷ (0x00000010, 0x2a)
    ∷ (0x00000020, 0x2c)
    ∷ (0x00000040, 0x2e)
    ∷ (0x00000080, 0x30)
    ∷ (0x00000100, 0x32)
    ∷ (0x00000400, 0x34)
    ∷ (0x00000200, 0x36)
    ∷ (0x00000800, 0x38)
    ∷ (0x40000000, 0x20)
    ∷ (0x00001000, 0x58)
    ∷ (0x00040000, 0x5a)
    ∷ (0x00002000, 0x3a)
    ∷ (0x00004000, 0x3c)
    ∷ (0x00008000, 0x3e)
    ∷ (0x00010000, 0x56)
    ∷ (0x00020000, 0x54)
    ∷ []

abbrev pub rep_opcodes : List (ℕ × ℕ)
rep_opcodes =
    (0x00100000, 0x40)
    ∷ (0x00200000, 0x42)
    ∷ (0x00400000, 0x44)
    ∷ (0x00800000, 0x46)
    ∷ (0x01000000, 0x48)
    ∷ (0x02000000, 0x4a)
    ∷ (0x04000000, 0x4c)
    ∷ (0x08000000, 0x4e)
    ∷ (0x10000000, 0x50)
    ∷ (0x20000000, 0x52)
    ∷ []

-- The loop over the twelve soft keys from bit `bi` on.
unfoldable pub first_softkey : ℕ → ℕ → ℕ → ℕ
first_softkey zero bi sk = 0xff
first_softkey (suc n) bi sk =
    let later = first_softkey n (bi + 1) sk in
    if is_odd (sk / 2 ^ bi) then u8 (0x90 + bi) else later

-- A soft key counts if it is pressed alone.
unfoldable pub softkey_opcode : Profile → ℕ → ℕ
softkey_opcode vfd_11line_softkeys softkeys =
    let sk = bit_and softkeys 0x0fff in
    if not (sk == 0) && bit_and sk (u16 (sk + 0xffff)) == 0 then first_softkey 12 0 sk else 0xff
softkey_opcode _ softkeys = 0xff

unfoldable pub resolve_wire_opcode : ℕ → Profile → ℕ → ℕ
resolve_wire_opcode keymatrix profile softkeys =
    let km = bit_and keymatrix (keymatrix_applied_mask profile) in
    let keys_down = bit_and km (0xffffffff - 0x00080000) in
    first_opcode keys_down key_opcodes
      (first_opcode keys_down rep_opcodes (softkey_opcode profile softkeys))

-- The legacy path: the digit's number.
unfoldable pub map_key_nibble : ℕ → ℕ
map_key_nibble km =
    if tests km 0x00000400
    then 0x00
    else if tests km 0x00000001
    then 0x01
    else if tests km 0x00000002
    then 0x02
    else if tests km 0x00000004
    then 0x03
    else if tests km 0x00000008
    then 0x04
    else if tests km 0x00000010
    then 0x05
    else if tests km 0x00000020
    then 0x06
    else if tests km 0x00000040
    then 0x07
    else if tests km 0x00000080
    then 0x08
    else if tests km 0x00000100
    then 0x09
    else 0x0f

unfoldable pub update_tone_mode : Pcd → Pcd
update_tone_mode p =
    if not p.obs.hook_off
    then record p { obs = record p.obs { tone = no_tone } }
    else if p.input.voice_active
    then record p { obs = record p.obs { tone = no_tone } }
    else if p.input.oos_visible && not p.relay_seized
    then record p { obs = record p.obs { tone = nis } }
    else record p { obs = record p.obs { tone = no_tone } }

-- Port 1 with a wire opcode, and port 2.
unfoldable pub wire_p1 : Bool → ℕ → ℕ
wire_p1 off_hook wire = u8 (bit_or (bit_or (if off_hook then 0 else 0x80) 0x40) (wire % 64))

unfoldable pub wire_p2 : ℕ → ℕ → ℕ → ℕ
wire_p2 linectrl wire host = u8 (bit_or (bit_or (bit_and linectrl 0xcf) (wire / 64 % 4 * 16)) host)

-- Port 1 without one.
unfoldable pub legacy_p1 : Bool → ℕ → ℕ
legacy_p1 off_hook keymatrix =
    let p1 = if off_hook then u8 (bit_and 0x8f (0xffffffff - 0x80)) else 0x8f in
    u8 (bit_or (p1 / 16 * 16) (map_key_nibble keymatrix))

-- The host's flags.
unfoldable pub host_flags : Input → ℕ
host_flags i = u8 (bit_or (if i.oos_visible then 0x40 else 0) (if i.voice_active then 0x80 else 0))

unfoldable pub set_input_snapshot : Input → Pcd → Pcd
set_input_snapshot i p0 =
    let off_hook = tests i.keymatrix 0x00080000 in
    let p = record p0 {
      input = i;
      obs = record p0.obs { hook_off = off_hook; line_ok = tests i.linectrl 0x01 };
    } in
    let linectrl = i.linectrl % 256 in
    let wire = resolve_wire_opcode i.keymatrix i.terminal_21_profile i.softkeys in
    let host = host_flags i in
    update_tone_mode (
      if not (wire == 0xff)
      then record p { port_p1_in = wire_p1 off_hook wire; port_p2_in = wire_p2 linectrl wire host }
      else record p {
        port_p1_in = legacy_p1 off_hook i.keymatrix;
        port_p2_in = u8 (bit_or (linectrl % 64) host);
      })
