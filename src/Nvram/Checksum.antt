-- ===== src/Nvram/Checksum.antt =====
-- The checksum of the store against the envelopes that were loaded.
use coin_line_emu.Base.{
  ℕ, ◌≡◌, true, false, not, Option, none, some, List, [], ◌∷◌, if◌then◌else◌, length, ltb,
}
use coin_line_emu.Base.Text.{is_empty}
use coin_line_emu.Nvram.{
  Nvram, Layout, NvramError, nvram_size_differs, table_size_differs, dla_size_differs, configure,
  reset_session, write_nvram, write_table, write_dla, verify_checksum, recover_default_cleared,
}
use coin_line_emu.Nvram.Envelope.{load_envelope_json}
use coin_line_emu.Nvram.State.{deserialize_state}
use coin_line_emu.Nvram.Loading.{is_wrong, Sealed}

-- The calls that change the stores.
pub data Op : Type 0 where
  session_reset recover : Op
  nvram_write table_write dla_write : ℕ → ℕ → Op
  load restore_blob : List ℕ → Op
  reconfigure : Layout → Op

unfoldable pub apply : Op → Nvram → Nvram
apply session_reset m = reset_session m
apply recover m = recover_default_cleared m
apply (nvram_write offset value) m = (write_nvram offset value m).0
apply (table_write offset value) m = (write_table offset value m).0
apply (dla_write offset value) m = (write_dla offset value m).0
apply (load json) m = (load_envelope_json json m).0
apply (restore_blob blob) m = (deserialize_state blob m).0
apply (reconfigure layout) m = configure layout m

unfoldable pub run : List Op → Nvram → Nvram
run [] m = m
run (o ∷ os) m = run os (apply o m)

-- What the calls say of the store: an envelope's checksum was wrong, or the bytes were replaced
-- without a new checksum, or neither.
pub data Verdict : Type 0 where
  good bad stale : Verdict

abbrev pub rewritten : Verdict → Verdict
rewritten bad = bad
rewritten _ = good

abbrev pub replaced : Verdict → Verdict
replaced bad = bad
replaced _ = stale

-- The verdict behind a restored state, by the reported error.
abbrev pub restored : Verdict → Option NvramError → Verdict
restored v none = good
restored v (some nvram_size_differs) = replaced v
restored v (some table_size_differs) = replaced v
restored v (some dla_size_differs) = replaced v
restored v (some _) = v

abbrev pub judge : Op → Nvram → Verdict → Verdict
judge recover m v = good
judge (nvram_write offset value) m v = if ltb offset (length m.nvram) then rewritten v else v
judge (load json) m v = if is_wrong m.layout json then bad else good
judge (restore_blob blob) m v = restored v (deserialize_state blob m).1
judge (reconfigure layout) m v = replaced v
judge _ m v = v

abbrev pub verdict : List Op → Nvram → Verdict → Verdict
verdict [] m v = v
verdict (o ∷ os) m v = verdict os (apply o m) (judge o m v)

-- What holds of the store under a verdict.
abbrev Holds : Verdict → Nvram → Type 0
Holds good m = (m.checksum_failed ≡ false) × Sealed m
Holds bad m = m.checksum_failed ≡ true
Holds stale m = m.checksum_failed ≡ false

-- What the check of the checksum answers under a verdict.
abbrev pub Answers : Verdict → Nvram → Type 0
Answers good m = verify_checksum m ≡ not (is_empty m.nvram)
Answers bad m = verify_checksum m ≡ false
Answers stale m = Unit
