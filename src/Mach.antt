-- ===== src/Mach.antt =====
-- The upper memory of the board, src/mame/coinline/millennium_mach_pio.cpp, with
-- millennium_cashbox_hw.h.
use coin_line_emu.Base.{
  ℕ, ◌+◌, ◌-◌, ◌*◌, ◌/◌, ◌%◌, ◌<◌, ◌≤◌, ◌≡◌, ◌&&◌, bit_or, ltb, leb, ◌==◌, bit_and, if◌then◌else◌,
  arith,
}

abbrev pub k_mach_port_h_vault_status_mask : ℕ
k_mach_port_h_vault_status_mask = 0x0c

-- The latch with the vault bits cleared and the lines of the smart card in its low bits.
unfoldable pub combine_port_h_read : ℕ → ℕ → ℕ
combine_port_h_read shadow smartcard_lines_low2 =
    let cleared = bit_and shadow (0xff - k_mach_port_h_vault_status_mask) in
    bit_or cleared (smartcard_lines_low2 % 4)

-- Where a physical address leads.
pub data Route : Type 0 where
  below_sram_windows : Route
  sram_chip : ℕ → Route
  unmapped_ff : Route
  upper_flash : Route

abbrev pub window_span : ℕ
window_span = 0x20000

unfoldable pub decode_phys_ram : ℕ → ℕ → ℕ → Route
decode_phys_ram mach_port_h_shadow phys_addr_20 sram_capacity_bytes =
    let phys = phys_addr_20 % 0x100000 in
    let bank = mach_port_h_shadow / 16 % 4 in
    let low = bank * window_span + (phys - 0xc0000) in
    let high = bank * window_span + window_span + (phys - 0xe0000) in
    if ltb phys 0xc0000
    then Route.below_sram_windows
    else if leb phys 0xdffff
    then if ltb low sram_capacity_bytes then Route.sram_chip low else Route.unmapped_ff
    else if mach_port_h_shadow % 8 == 7 && ltb high sram_capacity_bytes
    then Route.sram_chip high
    else Route.upper_flash

-- The index into the memory, if there is one, is below a bound.
abbrev IsWithin : ℕ → Route → Type 0
IsWithin size (Route.sram_chip i) = i < size
IsWithin size _ = 0 ≤ size

-- An address that leads to the memory has an index below its capacity.
pub decode_phys_ram-IsWithin :
    (shadow address capacity : ℕ) → IsWithin capacity (decode_phys_ram shadow address capacity)
unfolding decode_phys_ram
decode_phys_ram-IsWithin shadow address capacity = ground arith

-- Two addresses that lead to the same byte of the memory, under one latch, are the same address.
pub decode_phys_ram-sram_chip :
    (shadow a b capacity i : ℕ)
    → decode_phys_ram shadow a capacity ≡ Route.sram_chip i
    → decode_phys_ram shadow b capacity ≡ Route.sram_chip i
    → a % 0x100000 ≡ b % 0x100000
unfolding decode_phys_ram
decode_phys_ram-sram_chip shadow a b capacity i ha hb = ground (arith, ha, hb)
