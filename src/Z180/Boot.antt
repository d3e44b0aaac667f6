-- ===== src/Z180/Boot.antt =====
-- The boot sequence, src/mame/coinline/millennium_z180_boot_init_model.{h,cpp}.
use coin_line_emu.Base.{
  ℕ, ◌+◌, ◌≡◌, refl, ap, Bool, true, false, List, [], ◌∷◌, length, replicate, ◌==◌, if◌then◌else◌,
  u32,
}

-- `boot_init_config`
pub record BootConfig : Type 0 where
  pub banked_mode : Bool
  pub battery_backed : Bool
  pub stack_addr : ℕ
  pub x_mem_top_addr : ℕ
  pub cbr_value : ℕ
  pub cbar_value : ℕ

pub record Boot : Type 0 where
  pub cfg : BootConfig
  pub sp : ℕ
  pub freep : ℕ
  pub heap_base : ℕ
  pub cbr : ℕ
  pub cbar : ℕ
  pub mem_top : ℕ
  pub bank_init_called : Bool
  pub bank_init_call_count : ℕ
  pub non_banked_mmu_configured : Bool
  pub jumped_xreset1 : Bool
  pub bss : List ℕ

unfoldable pub configure : BootConfig → Boot → Boot
configure cfg b = record b { cfg = cfg }

unfoldable pub reset : Boot → Boot
reset b = record {
  cfg = b.cfg;
  sp = 0;
  freep = 0xff;
  heap_base = 0xff;
  cbr = 0x00;
  cbar = 0x00;
  mem_top = 0x00;
  bank_init_called = false;
  bank_init_call_count = 0;
  non_banked_mmu_configured = false;
  jumped_xreset1 = false;
  bss = [];
}

unfoldable pub set_bss_size : ℕ → Boot → Boot
set_bss_size bytes b = record b { bss = replicate bytes 0xa5 }

unfoldable pub set_mem_top : ℕ → Boot → Boot
set_mem_top v b = record b { mem_top = v }

abbrev pub call_bank_init : Boot → Boot
call_bank_init b = record b {
  bank_init_called = true;
  bank_init_call_count = u32 (b.bank_init_call_count + 1);
}

unfoldable pub run_cstart : Boot → Boot
run_cstart b0 =
    let b = record b0 { sp = b0.cfg.stack_addr } in
    let c = if b.cfg.banked_mode then call_bank_init b else record b {
      non_banked_mmu_configured = true;
      cbr = b.cfg.cbr_value;
      cbar = b.cfg.cbar_value;
    } in
    record c { jumped_xreset1 = true }

-- The loop; a battery-backed memory keeps its first byte.
unfoldable pub clear_from : Bool → List ℕ → List ℕ
clear_from keep [] = []
clear_from keep (x ∷ xs) = (if keep then x else 0x00) ∷ clear_from false xs

unfoldable pub run_bss_clear_and_malloc_seed : Boot → Boot
run_bss_clear_and_malloc_seed b = record b {
  bss = clear_from b.cfg.battery_backed b.bss;
  freep = 0x00;
  heap_base = 0x00;
}

unfoldable pub run_pre_reset_handoff : Boot → Boot
run_pre_reset_handoff b = if b.cfg.banked_mode then call_bank_init b else b

unfoldable pub detect_mem_top_corruption : ℕ → Boot → Bool
detect_mem_top_corruption corrupt_marker b = b.mem_top == corrupt_marker

clear_rest : (xs : List ℕ) → clear_from false xs ≡ replicate (length xs) 0
unfolding clear_from
clear_rest [] = refl
clear_rest (x ∷ xs) = ap (λ (l : List ℕ). 0 ∷ l) (clear_rest xs)

-- The memory is cleared, but for the first byte of a battery-backed one.
clear_from-kept :
    (keep : Bool) (x : ℕ) (xs : List ℕ)
    → clear_from keep (x ∷ xs) ≡ (if keep then x else 0) ∷ replicate (length xs) 0
unfolding clear_from
clear_from-kept keep x xs = ap (λ (l : List ℕ). (if keep then x else 0) ∷ l) (clear_rest xs)
