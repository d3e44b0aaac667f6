-- ===== src/UserIo.antt =====
-- Who consumes a key, src/mame/coinline/millennium_user_io_overlay_model.cpp.
use coin_line_emu.Base.{ℕ, Bool, ◌&&◌, leb, if◌then◌else◌}

pub data Consumer : Type 0 where
  no_consumer : Consumer
  overlay_profile : Consumer
  quick_key : Consumer
  numeric_keypad : Consumer
  system_fallback : Consumer

-- `overlay_chain_state`
pub record OverlayChain : Type 0 where
  pub overlay_enabled : Bool
  pub quick_key_enabled : Bool
  pub numeric_enabled : Bool

abbrev pub is_quick_key : ℕ → Bool
is_quick_key raw_keycode = leb 0xa0 raw_keycode && leb raw_keycode 0xaf

abbrev pub is_numeric_key : ℕ → Bool
is_numeric_key raw_keycode = leb raw_keycode 9

unfoldable pub arbitrate_ordered_consumer : OverlayChain → ℕ → Consumer
arbitrate_ordered_consumer state raw_keycode =
    if state.overlay_enabled
    then Consumer.overlay_profile
    else if state.quick_key_enabled && is_quick_key raw_keycode
    then Consumer.quick_key
    else if state.numeric_enabled && is_numeric_key raw_keycode
    then Consumer.numeric_keypad
    else Consumer.system_fallback
