-- ===== src/Vfd/Firmware.antt =====
-- What holds of the display after every byte that the firmware writes.
use coin_line_emu.Base.{
  ℕ, ◌+◌, ◌-◌, ◌*◌, ◌%◌, ◌<◌, ◌≡◌, ◌&&◌, ◌||◌, List, [], ◌∷◌, leb, ◌==◌, length, subst, bit_of,
  both_branches, tests,
}
use coin_line_emu.Base.Text.{is_empty}
use coin_line_emu.Vfd.{
  DisplayProfile, Profile, Vfd, Mode, zeros, configured, configure, reset, set_busy,
}
use coin_line_emu.Vfd.Read.{dot}
use coin_line_emu.Vfd.Agree.{lit, ShowsCell}
use coin_line_emu.Vfd.Grid.{IsGrid, at_least_one_pos}
use coin_line_emu.Vfd.Shows.{Shows}
use coin_line_emu.Vfd.Panels.{
  IsSoundPanel, set_mark-IsSoundPanel, define_glyph-IsSoundPanel, blank_panel-IsSoundPanel,
}
use coin_line_emu.Vfd.Sound.{
  IsSound, clear_display-IsSound, home_cursor-IsSound, carriage_return-IsSound, backspace-IsSound,
  horizontal_tab-IsSound, line_feed-IsSound, software_reset-IsSound, place_cursor-IsSound,
  write_glyph_byte-IsSound,
}
use coin_line_emu.Vfd.Busy.{run_profile}
use coin_line_emu.Vfd.Motion.{mark_decoded_command, try_finalize_m6}
use coin_line_emu.Vfd.Write.{
  append_raw, await_params, handle_mode, handle_font, handle_character, handle_normal, handle_esc,
  apply_params, handle_param, log_unknown_control, handle_data, write_data_byte, abandon, logged,
  write_command_byte, write, Access, run,
}

module _ (font : ℕ → List ℕ) (blank : font b' ' ≡ zeros 5) where
  abbrev P : Vfd → Type 0
  P v = IsSound font v

  handle_mode-IsSound : (cycle b : ℕ) (v : Vfd) → P v → P (handle_mode cycle b v)
  unfolding IsSound handle_mode await_params set_busy try_finalize_m6 mark_decoded_command
  handle_mode-IsSound cycle b v h = both_branches P (b == 0x11) _ _ h (
      both_branches P (b == 0x12) _ _ h (
        both_branches P (b == 0x13) _ _ h (
          both_branches P (b == 0x14) _ _ h (
            both_branches P (b == 0x15) _ _ h
              (both_branches P (b == 0x16) _ _ h (both_branches P (b == 0x17) _ _ h h))))))

  handle_font-IsSound : (cycle b : ℕ) (v : Vfd) → P v → P (handle_font cycle b v)
  unfolding IsSound handle_font set_busy try_finalize_m6 mark_decoded_command
  handle_font-IsSound cycle b v h =
      both_branches P (b == 0x1d) _ _ h (both_branches P (b == 0x1e) _ _ h h)

  handle_character-IsSound : (cycle b : ℕ) (v : Vfd) → P v → P (handle_character font cycle b v)
  unfolding IsSound handle_character await_params set_busy try_finalize_m6 mark_decoded_command
      log_unknown_control
  handle_character-IsSound cycle b v h =
      let mark = set_mark-IsSoundPanel font blank v.profile v.panel b h in
      let start = carriage_return-IsSound font blank v h in
      let feed = line_feed-IsSound font blank v h in
      let glyph = write_glyph_byte-IsSound font blank v b h in
      both_branches P (b == 0x18 || b == 0x19) _ _ mark (
        both_branches P (b == 0x1a) _ _ h (
          both_branches P (leb 0x1d b && leb b 0x1f) _ _ (handle_font-IsSound cycle b v h) (
            both_branches P (b == 0x0d) _ _ start (
              both_branches P (b == 0x0a) _ _ feed
                (both_branches P (b == 0x1c) _ _ h (both_branches P (leb 0x20 b) _ _ glyph h))))))

  handle_normal-IsSound : (cycle b : ℕ) (v : Vfd) → P v → P (handle_normal font cycle b v)
  unfolding IsSound handle_normal set_busy
  handle_normal-IsSound cycle b v h =
      let cleared = clear_display-IsSound font blank v h in
      let back = backspace-IsSound font blank v h in
      let tab = horizontal_tab-IsSound font blank v h in
      both_branches P (b == 0x1b) _ _ h (
        both_branches P (b == 0x0e || b == 0x0c) _ _ cleared (
          both_branches P (b == 0x08) _ _ back (
            both_branches P (b == 0x09) _ _ tab (
              both_branches P (leb 0x10 b && leb b 0x17) _ _ (handle_mode-IsSound cycle b v h)
                (handle_character-IsSound cycle b v h)))))

  handle_esc-IsSound : (cycle b : ℕ) (v : Vfd) → P v → P (handle_esc cycle b v)
  unfolding IsSound handle_esc await_params set_busy try_finalize_m6 mark_decoded_command
  handle_esc-IsSound cycle b v h =
      let b2 = b % 0x80 in
      both_branches P (b2 == 0x40 || b2 == 0x02) _ _ (clear_display-IsSound font blank v h) (
        both_branches P (b2 == 0x01) _ _ (home_cursor-IsSound font blank v h) (
          both_branches P (b2 == 0x48) _ _ h (
            both_branches P (b2 == 0x49) _ _ (software_reset-IsSound font blank v h) (
              both_branches P (b2 == 0x53) _ _ h (
                both_branches P (b2 == 0x38 || b2 == 0x39) _ _ h (
                  both_branches P (b2 == 0x58 || b2 == 0x59) _ _ h (
                    both_branches P (b2 == 0x4c || b2 == 0x54 || b2 == 0x43) _ _ h
                      (both_branches P (b2 == 0x00 || b2 == 0x03 || b2 == 0x0f) _ _ h h))))))))

  apply_params-IsSound : (v : Vfd) → P v → P (apply_params font v)
  unfolding IsSound apply_params
  apply_params-IsSound v h =
      let cmd = v.pending_esc_cmd in
      let args = v.pending_esc_args in
      both_branches P (is_empty args) _ _ h (
        both_branches P (cmd == 0x4c || cmd == 0x1a) _ _ h (
          both_branches P (cmd == 0x54) _ _ h (
            both_branches P (cmd == 0x48) _ _ (place_cursor-IsSound font blank _ v h) (
              both_branches P (cmd == 0x16) _ _ h (
                both_branches P (cmd == 0x1c && leb 6 (length args)) _ _
                  (define_glyph-IsSoundPanel font blank v.profile v.panel args h) h)))))

  handle_param-IsSound : (cycle b : ℕ) (v : Vfd) → P v → P (handle_param font cycle b v)
  unfolding IsSound handle_param set_busy try_finalize_m6 mark_decoded_command
  handle_param-IsSound cycle b v h =
      both_branches P (v.pending_esc_params - 1 == 0) _ _ (apply_params-IsSound _ h) h

  handle_data-IsSound : (m : Mode) (cycle b : ℕ) (v : Vfd) → P v → P (handle_data m font cycle b v)
  handle_data-IsSound Mode.normal cycle b v h = handle_normal-IsSound cycle b v h
  handle_data-IsSound Mode.esc cycle b v h = handle_esc-IsSound cycle b v h
  handle_data-IsSound Mode.esc_param_n cycle b v h = handle_param-IsSound cycle b v h

  write_data_byte-IsSound : (b cycle : ℕ) (v : Vfd) → P v → P (write_data_byte font b cycle v)
  unfolding IsSound write_data_byte append_raw
  write_data_byte-IsSound b cycle v h = handle_data-IsSound v.mode cycle b (logged b v) h

  abandon-IsSound : (v : Vfd) → P v → P (abandon v)
  unfolding IsSound abandon
  abandon-IsSound v h = both_branches P _ v _ h h

  write_command_byte-IsSound : (b cycle : ℕ) (v : Vfd) → P v → P (write_command_byte b cycle v)
  unfolding IsSound write_command_byte append_raw set_busy try_finalize_m6 mark_decoded_command
  write_command_byte-IsSound b cycle v h =
      let w : Vfd = abandon (logged b v) in
      let hw : P w = abandon-IsSound (logged b v) h in
      both_branches P (b == 0x40) _ _ (software_reset-IsSound font blank w hw)
        (place_cursor-IsSound font blank b w hw)

  write-IsSound : (b cycle port : ℕ) (v : Vfd) → P v → P (write font b cycle port v)
  unfolding write
  write-IsSound b cycle port v h = both_branches P (tests port 0x40) v _ h (
      both_branches P (tests port 0x20) _ _ (write_command_byte-IsSound b cycle v h)
        (write_data_byte-IsSound b cycle v h))

  run-IsSound : (accesses : List Access) (v : Vfd) → P v → P (run font accesses v)
  unfolding run
  run-IsSound [] v h = h
  run-IsSound (a ∷ rest) v h = run-IsSound rest _ (write-IsSound a.byte a.cycle a.pio_port_b v h)

  reset-IsSound : (d : DisplayProfile) (v : Vfd) → P (reset (configure d v))
  unfolding IsSound reset configure configured
  reset-IsSound d v =
      blank_panel-IsSoundPanel font blank _ (at_least_one_pos d.rows) (at_least_one_pos d.columns)

  -- A display that was configured and reset, after some writes.
  abbrev pub written : DisplayProfile → Vfd → List Access → Vfd
  written d v accesses = run font accesses (reset (configure d v))

  written-IsSoundPanel :
      (d : DisplayProfile) (v : Vfd) (accesses : List Access)
      → IsSoundPanel font (configured d) (written d v accesses).panel
  unfolding IsSound configure reset
  written-IsSoundPanel d v accesses =
      subst (λ (p : Profile). IsSoundPanel font p (written d v accesses).panel)
        (run_profile font accesses (reset (configure d v)))
        (run-IsSound accesses _ (reset-IsSound d v))

  -- After any writes to a display that was configured and reset, its lists have the sizes of the
  -- display, and the cursor is on it, for a font whose space is blank.
  pub run-IsGrid :
      (d : DisplayProfile) (v : Vfd) (accesses : List Access)
      → IsGrid (configured d) (written d v accesses).panel
  run-IsGrid d v accesses = (written-IsSoundPanel d v accesses).grid

  -- After any writes to a display that was configured and reset, each dot of its plane is lit exactly
  -- when the glyph of the character in its cell has it, or a mark of that cell, for a font whose space
  -- is blank.
  pub run-lit :
      (d : DisplayProfile) (v : Vfd) (accesses : List Access) (row col ry cx : ℕ)
      → row < (configured d).rows
      → col < (configured d).columns
      → ry < 7
      → cx < 5
      → let s = (written d v accesses).panel in
        dot (configured d) s.dot_plane (row * 7 + ry) (col * 5 + cx)
        ≡ bit_of (lit font (configured d) s row col ry cx)
  unfolding Shows ShowsCell
  run-lit d v accesses row col ry cx hrow hcol hry hcx =
      (written-IsSoundPanel d v accesses).shown row col hrow hcol ry cx hry hcx
