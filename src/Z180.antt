-- ===== src/Z180.antt =====
-- Memory translation and register reads of the Z180, src/mame/coinline/millennium_z180_mmu.cpp and
-- millennium_z180_register_math.h.
pub mod Translation
pub mod Boot
use coin_line_emu.Base.{
  ℕ, zero, suc, ◌+◌, ◌-◌, ◌*◌, ◌/◌, ◌%◌, Bool, true, false, List, [], ◌∷◌, bit_and, bit_or, get_or,
  leb, if◌then◌else◌, u8, u32,
}

-- The entry of a page; the sums are of 32 bits, and the result of 20.
unfoldable pub mmu_entry : ℕ → ℕ → ℕ → ℕ → ℕ
mmu_entry page cbr bbr cbar =
    let bb = cbar % 16 in
    let cb = cbar / 16 in
    let addr = page * 4096 in
    (if leb bb page
      then if leb cb page then u32 (addr + cbr * 4096) else u32 (addr + bbr * 4096)
      else addr)
    % 1048576

-- The loop over the pages from `page` on.
unfoldable pub build_from : ℕ → ℕ → ℕ → ℕ → ℕ → List ℕ
build_from zero page cbr bbr cbar = []
build_from (suc n) page cbr bbr cbar =
    mmu_entry page cbr bbr cbar ∷ build_from n (page + 1) cbr bbr cbar

unfoldable pub build_table : ℕ → ℕ → ℕ → List ℕ
build_table cbr bbr cbar = build_from 16 0 cbr bbr cbar

unfoldable pub translate20 : ℕ → ℕ → ℕ → ℕ → ℕ
translate20 logical16 cbr bbr cbar =
    bit_or (get_or (build_table cbr bbr cbar) (logical16 / 4096 % 16) 0) (logical16 % 4096)

unfoldable pub itc_read_byte : ℕ → ℕ
itc_read_byte raw_itc = u8 (bit_or raw_itc (0xffffffff - 0xc7))

unfoldable pub rcr_read_byte : ℕ → ℕ
rcr_read_byte raw_rcr = u8 (bit_or raw_rcr (0xffffffff - 0xc3))

unfoldable pub iocr_read_byte : ℕ → Bool → ℕ
iocr_read_byte raw_iocr extended_io =
    u8 (bit_or raw_iocr (0xffffffff - (if extended_io then 0xa0 else 0xe0)))

unfoldable pub il_read_byte : ℕ → ℕ
il_read_byte raw_il = u8 (bit_and raw_il 0xe0)

unfoldable pub omcr_read_byte : ℕ → ℕ
omcr_read_byte raw_omcr = u8 (bit_or (bit_or raw_omcr 0x40) (0xffffffff - 0xe0))
