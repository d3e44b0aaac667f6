-- ===== src/Z180/Translation.antt =====
-- The translation against the three areas of the address space.
use coin_line_emu.Base.Bits.{bit_or_high_field}
use coin_line_emu.Base.{
  ℕ, zero, suc, ◌+◌, ◌*◌, ◌/◌, ◌%◌, ◌<◌, ◌≡◌, sym, ap, ◌∙◌, arith, bit_or, get_or, ltb,
  if◌then◌else◌,
}
use coin_line_emu.Z180.{mmu_entry, build_from, build_table, translate20}

-- The page by which an address moves: nothing in the first common area, the bank's page in the bank
-- area and the common page in the second common area.
abbrev pub relocation : ℕ → ℕ → ℕ → ℕ → ℕ
relocation page cbr bbr cbar =
    if ltb page (cbar % 16) then 0 else if ltb page (cbar / 16) then bbr else cbr

build_from-entry :
    (n i page cbr bbr cbar : ℕ)
    → i < n
    → get_or (build_from n page cbr bbr cbar) i 0 ≡ mmu_entry (page + i) cbr bbr cbar
unfolding build_from
build_from-entry zero i page cbr bbr cbar h = absurd (omega arith)
build_from-entry (suc n) zero page cbr bbr cbar h =
    ap (λ (p : ℕ). mmu_entry p cbr bbr cbar) (omega arith)
build_from-entry (suc n) (suc i) page cbr bbr cbar h =
    build_from-entry n i (page + 1) cbr bbr cbar (omega arith)
    ∙ ap (λ (p : ℕ). mmu_entry p cbr bbr cbar) (omega arith)

-- The translation of a 16-bit address adds the relocation of its page, modulo 2 ^ 20.
pub translate20-relocation :
    (logical16 cbr bbr cbar : ℕ)
    → logical16 < 65536
    → cbr < 256
    → bbr < 256
    → translate20 logical16 cbr bbr cbar
      ≡ (logical16 + relocation (logical16 / 4096) cbr bbr cbar * 4096) % 1048576
unfolding translate20 build_table mmu_entry
translate20-relocation logical16 cbr bbr cbar ha hc hb =
    let page = logical16 / 4096 in
    let entry = mmu_entry page cbr bbr cbar in
    let found : get_or (build_from 16 0 cbr bbr cbar) (page % 16) 0 ≡ entry =
      build_from-entry 16 (page % 16) 0 cbr bbr cbar (omega arith)
      ∙ ap (λ (p : ℕ). mmu_entry p cbr bbr cbar) (omega arith) in
    let whole : entry / 4096 * 4096 ≡ entry = ground arith in
    let joined = bit_or_high_field 12 (entry / 4096) (logical16 % 4096) (omega arith) in
    ap (λ (e : ℕ). bit_or e (logical16 % 4096)) found
    ∙ ap (λ (e : ℕ). bit_or e (logical16 % 4096)) (sym whole)
    ∙ joined
    ∙ ground arith
