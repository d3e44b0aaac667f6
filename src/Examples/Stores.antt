-- ===== src/Examples/Stores.antt =====
-- The battery-backed stores.
use coin_line_emu.Base.{
  ◌*◌, ◌/◌, ◌≡◌, refl, true, false, none, some, [], ◌∷◌, arith, length, take, List, ℕ,
}
use coin_line_emu.Base.Text.{bytes}
use coin_line_emu.Nvram.{Layout, Nvram, new, seal}
use coin_line_emu.Nvram.Base64.{base64_decode, base64_encode}
use coin_line_emu.Nvram.Base64.RoundTrip.{base64_decode-base64_encode}
use coin_line_emu.Nvram.State.{
  serialize_state, deserialize_state, deserialize_state-serialize_state,
}
use coin_line_emu.Nvram.Checksum.{Op, session_reset, recover, nvram_write, table_write, load}

base64_decode-base64_encode_example :
    base64_decode (base64_encode (bytes "line"))
    ≡ some (take (length (bytes "line") / 3 * 3) (bytes "line"))
unfolding bytes
base64_decode-base64_encode_example =
    base64_decode-base64_encode (bytes "line")
      (omega arith, (omega arith, (omega arith, (omega arith, tt))))

abbrev small : Layout
small = record { nvram_size = 3; table_storage_size = 0; dla_stage_size = 2 }

abbrev filled : Nvram
filled = record new { nvram = 1 ∷ 2 ∷ 3 ∷ []; table = 9 ∷ []; dla = 7 ∷ 8 ∷ [] }

abbrev fresh : Nvram
fresh = record new { layout = small; checksum_failed = true }

deserialize_state-serialize_state_example : deserialize_state (serialize_state filled) fresh ≡ (
  seal (record fresh {
    nvram = filled.nvram;
    table = filled.table;
    dla = filled.dla;
    checksum_failed = false;
  }),
  none,
)
deserialize_state-serialize_state_example =
    deserialize_state-serialize_state fresh filled (omega arith, omega arith, omega arith)
      (refl, refl, refl)

-- Three bytes with the sum 6, under the checksum 0x07.
abbrev corrupt_text : List ℕ
unfolding bytes
corrupt_text = bytes "{\"size\": 3, \"checksum_value\": \"0x07\", \"data_b64\": \"AQID\"}"

abbrev history : List Op
history =
    nvram_write 1 5
    ∷ recover
    ∷ load corrupt_text
    ∷ nvram_write 2 255
    ∷ table_write 0 3
    ∷ session_reset
    ∷ []
