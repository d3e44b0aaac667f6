-- ===== src/Nvram.antt =====
-- The battery-backed stores of src/mame/coinline/millennium_nvram_model.{h,cpp}: bounds-checked
-- bytes, the checksum envelope, and the saved state.
pub mod Base64
pub mod Envelope
pub mod State
pub mod Loading
pub mod Checksum
use coin_line_emu.Base.{
  ℕ, zero, suc, ◌+◌, ◌*◌, ◌/◌, ◌%◌, Bool, true, false, not, ◌&&◌, ◌||◌, Option, none, some, List,
  [], ◌∷◌, ◌++◌, length, get_or, set, take, drop, replicate, min, leb, ltb, ◌==◌, if◌then◌else◌, u8,
  u32,
}
use coin_line_emu.Base.Text.{is_empty}

-- The fields of `millennium_memory_layout_config` that the stores use.
pub record Layout : Type 0 where
  pub nvram_size : ℕ
  pub table_storage_size : ℕ
  pub dla_stage_size : ℕ

-- A rejected write, with its offset.
pub data LogEntry : Type 0 where
  reject_nvram reject_table reject_dla : ℕ → LogEntry

-- The texts of `error_out`.
pub data NvramError : Type 0 where
  write_out_of_range empty_buffer nothing_to_apply : NvramError
  blob_too_small blob_bad_magic blob_bad_header blob_size_mismatch : NvramError
  nvram_size_differs table_size_differs dla_size_differs : NvramError
  invalid_size invalid_base64 missing_checksum bad_checksum unsupported_algorithm : NvramError
  checksum_mismatch : ℕ → ℕ → NvramError

pub record Nvram : Type 0 where
  pub layout : Layout
  pub nvram : List ℕ
  pub table : List ℕ
  pub dla : List ℕ
  pub checksum_failed : Bool
  pub use_sum8_envelope : Bool
  pub envelope_sum8 : ℕ
  pub log : List LogEntry

-- The member initialisers.
abbrev pub new : Nvram
new = record {
  layout = record { nvram_size = 0; table_storage_size = 0; dla_stage_size = 0 };
  nvram = [];
  table = [];
  dla = [];
  checksum_failed = false;
  use_sum8_envelope = false;
  envelope_sum8 = 0;
  log = [];
}

unfoldable pub pad_vectors : Nvram → Nvram
pad_vectors m = record m {
  nvram = replicate m.layout.nvram_size 0;
  table = replicate m.layout.table_storage_size 0;
  dla = replicate m.layout.dla_stage_size 0;
}

unfoldable pub configure : Layout → Nvram → Nvram
configure layout m = pad_vectors (record m { layout = layout })

unfoldable pub reset_session : Nvram → Nvram
reset_session m = m

-- The loop of `compute_sum8`.
unfoldable pub sum_from : ℕ → List ℕ → ℕ
sum_from s [] = s
sum_from s (b ∷ bs) = sum_from (u32 (s + b)) bs

unfoldable pub compute_sum8 : List ℕ → ℕ
compute_sum8 bytes = u8 (sum_from 0 bytes)

-- What all reads do.
abbrev pub read_at : List ℕ → ℕ → ℕ
read_at bytes offset = if leb (length bytes) offset then 0xff else get_or bytes offset 0

unfoldable pub read_nvram : ℕ → Nvram → ℕ
read_nvram offset m = read_at m.nvram offset

unfoldable pub read_table : ℕ → Nvram → ℕ
read_table offset m = read_at m.table offset

unfoldable pub read_dla : ℕ → Nvram → ℕ
read_dla offset m = read_at m.dla offset

-- The envelope follows the bytes.
abbrev pub seal : Nvram → Nvram
seal m = record m { use_sum8_envelope = true; envelope_sum8 = compute_sum8 m.nvram }

unfoldable pub write_nvram : ℕ → ℕ → Nvram → Nvram × Option NvramError
write_nvram offset value m =
    if leb (length m.nvram) offset
    then (record m { log = m.log ++ reject_nvram offset ∷ [] }, some write_out_of_range)
    else (seal (record m { nvram = set m.nvram offset value }), none)

unfoldable pub write_table : ℕ → ℕ → Nvram → Nvram × Option NvramError
write_table offset value m =
    if leb (length m.table) offset
    then (record m { log = m.log ++ reject_table offset ∷ [] }, some write_out_of_range)
    else (record m { table = set m.table offset value }, none)

unfoldable pub write_dla : ℕ → ℕ → Nvram → Nvram × Option NvramError
write_dla offset value m =
    if leb (length m.dla) offset
    then (record m { log = m.log ++ reject_dla offset ∷ [] }, some write_out_of_range)
    else (record m { dla = set m.dla offset value }, none)

unfoldable pub verify_checksum : Nvram → Bool
verify_checksum m =
    if is_empty m.nvram
    then false
    else if m.checksum_failed
    then false
    else if not m.use_sum8_envelope
    then true
    else compute_sum8 m.nvram == m.envelope_sum8

-- The six bytes of the factory defaults.
abbrev pub seed_defaults : List ℕ → List ℕ
seed_defaults bytes =
    set (set (set (set (set (set bytes 0 0xc4) 1 0xa5) 30 0x2e) 31 0x1f) 40 0x3b) 41 0x5a

unfoldable pub recover_default_cleared : Nvram → Nvram
recover_default_cleared m =
    let cleared = replicate (length m.nvram) 0 in
    let filled = if leb 42 (length m.nvram) then seed_defaults cleared else cleared in
    seal (record m { nvram = filled; checksum_failed = false })

-- The flash image, and whether something was applied.
unfoldable pub apply_dla_to_flash : List ℕ → Nvram → List ℕ × Option NvramError
apply_dla_to_flash flash_rom m =
    let n = min (length m.dla) (length flash_rom) in
    if is_empty flash_rom
    then (flash_rom, some empty_buffer)
    else if n == 0
    then (flash_rom, some nothing_to_apply)
    else (take n m.dla ++ drop n flash_rom, none)
