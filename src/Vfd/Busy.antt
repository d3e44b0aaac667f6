-- ===== src/Vfd/Busy.antt =====
-- The log and the busy time under each write.
use coin_line_emu.Base.{
  ℕ, ◌+◌, ◌-◌, ◌%◌, ◌<◌, ◌≤◌, ◌≡◌, ◌∙◌, ap, refl, false, ◌&&◌, ◌||◌, List, [], ◌∷◌, ◌++◌, arith,
  ltb, leb, max, ◌==◌, length, if_cases, inl, inr, Bool-cases, both_branches, tests, u64,
}
use coin_line_emu.Base.Text.{is_empty}
use coin_line_emu.Vfd.{
  DisplayProfile, Profile, Vfd, Mode, configured, set_busy, busy_cycles, status_read,
}
use coin_line_emu.Vfd.Grid.{at_least_one_pos}
use coin_line_emu.Vfd.Motion.{
  mark_decoded_command, try_finalize_m6, clear_display, home_cursor, carriage_return, line_feed,
  backspace, horizontal_tab, software_reset, place_cursor,
}
use coin_line_emu.Vfd.Glyph.{write_glyph_byte}
use coin_line_emu.Vfd.Write.{
  append_raw, await_params, handle_mode, handle_font, handle_character, handle_normal, handle_esc,
  apply_params, handle_param, log_unknown_control, handle_data, write_data_byte, abandon, logged,
  write_command_byte, write, Access, run,
}

-- The log and the profile are kept, and the busy time is put off once.
abbrev IsBusier : ℕ → Vfd → Vfd → Type 0
IsBusier cycle v w =
    (w.raw_log ≡ v.raw_log)
    × (w.profile ≡ v.profile)
    × ((kind : ℕ) × (w.busy_until_cycle
          ≡ u64 (max v.busy_until_cycle cycle + busy_cycles kind v.profile)))

module _ (font : ℕ → List ℕ) (cycle : ℕ) where
  handle_mode-IsBusier : (b : ℕ) (v : Vfd) → IsBusier cycle v (handle_mode cycle b v)
  unfolding handle_mode await_params try_finalize_m6 mark_decoded_command set_busy
  handle_mode-IsBusier b v =
      let P = λ (w : Vfd). IsBusier cycle v w in
      let moved : IsBusier cycle v (set_busy cycle 2 v) = (refl, refl, (2, refl)) in
      both_branches P (b == 0x11) _ _ moved (
        both_branches P (b == 0x12) _ _ moved (
          both_branches P (b == 0x13) _ _ moved (
            both_branches P (b == 0x14) _ _ moved (
              both_branches P (b == 0x15) _ _ moved (
                both_branches P (b == 0x16) _ _ moved
                  (both_branches P (b == 0x17) _ _ moved moved))))))

  handle_character-IsBusier : (b : ℕ) (v : Vfd) → IsBusier cycle v (handle_character font cycle b v)
  unfolding handle_character await_params set_busy try_finalize_m6 mark_decoded_command
      log_unknown_control handle_font carriage_return line_feed write_glyph_byte
  handle_character-IsBusier b v =
      let P = λ (w : Vfd). IsBusier cycle v w in
      let P2 = λ (w : Vfd). IsBusier cycle v (set_busy cycle 2 w) in
      let moved : IsBusier cycle v (set_busy cycle 2 v) = (refl, refl, (2, refl)) in
      let put : IsBusier cycle v (set_busy cycle 0 v) = (refl, refl, (0, refl)) in
      let font_code =
        both_branches P2 (b == 0x1d) _ _ moved (both_branches P2 (b == 0x1e) _ _ moved moved) in
      let feed = both_branches P2 (ltb (v.panel.cursor_row + 1) v.profile.rows) _ _ moved moved in
      let glyph =
        both_branches (λ (w : Vfd). IsBusier cycle v (set_busy cycle 0 w))
          (leb v.profile.rows v.panel.cursor_row || leb v.profile.columns v.panel.cursor_col) _ _
          put put in
      both_branches P (b == 0x18 || b == 0x19) _ _ moved (
        both_branches P (b == 0x1a) _ _ moved (
          both_branches P (leb 0x1d b && leb b 0x1f) _ _ font_code (
            both_branches P (b == 0x0d) _ _ moved (
              both_branches P (b == 0x0a) _ _ feed (
                both_branches P (b == 0x1c) _ _ moved
                  (both_branches P (leb 0x20 b) _ _ glyph moved))))))

  handle_normal-IsBusier : (b : ℕ) (v : Vfd) → IsBusier cycle v (handle_normal font cycle b v)
  unfolding handle_normal set_busy try_finalize_m6 mark_decoded_command clear_display backspace
      horizontal_tab
  handle_normal-IsBusier b v =
      let P = λ (w : Vfd). IsBusier cycle v w in
      let cleared : IsBusier cycle v (set_busy cycle 1 v) = (refl, refl, (1, refl)) in
      let moved : IsBusier cycle v (set_busy cycle 2 v) = (refl, refl, (2, refl)) in
      both_branches P (b == 0x1b) _ _ moved (
        both_branches P (b == 0x0e || b == 0x0c) _ _ cleared (
          both_branches P (b == 0x08) _ _ moved (
            both_branches P (b == 0x09) _ _ moved (
              both_branches P (leb 0x10 b && leb b 0x17) _ _ (handle_mode-IsBusier b v)
                (handle_character-IsBusier b v)))))

  handle_esc-IsBusier : (b : ℕ) (v : Vfd) → IsBusier cycle v (handle_esc cycle b v)
  unfolding handle_esc await_params set_busy try_finalize_m6 mark_decoded_command clear_display
      home_cursor software_reset
  handle_esc-IsBusier b v =
      let b2 = b % 0x80 in
      let P = λ (w : Vfd). IsBusier cycle v w in
      let cleared : IsBusier cycle v (set_busy cycle 1 v) = (refl, refl, (1, refl)) in
      let moved : IsBusier cycle v (set_busy cycle 2 v) = (refl, refl, (2, refl)) in
      both_branches P (b2 == 0x40 || b2 == 0x02) _ _ cleared (
        both_branches P (b2 == 0x01) _ _ moved (
          both_branches P (b2 == 0x48) _ _ moved (
            both_branches P (b2 == 0x49) _ _ cleared (
              both_branches P (b2 == 0x53) _ _ moved (
                both_branches P (b2 == 0x38 || b2 == 0x39) _ _ moved (
                  both_branches P (b2 == 0x58 || b2 == 0x59) _ _ moved (
                    both_branches P (b2 == 0x4c || b2 == 0x54 || b2 == 0x43) _ _ moved (
                      both_branches P (b2 == 0x00 || b2 == 0x03 || b2 == 0x0f) _ _ moved
                        moved))))))))

  handle_param-IsBusier : (b : ℕ) (v : Vfd) → IsBusier cycle v (handle_param font cycle b v)
  unfolding handle_param apply_params place_cursor set_busy try_finalize_m6 mark_decoded_command
  handle_param-IsBusier b v =
      let P = λ (w : Vfd). IsBusier cycle v (set_busy cycle 2 w) in
      let moved : IsBusier cycle v (set_busy cycle 2 v) = (refl, refl, (2, refl)) in
      let cmd = v.pending_esc_cmd in
      let args = v.pending_esc_args ++ (b ∷ []) in
      let applied = both_branches P (is_empty args) _ _ moved (
        both_branches P (cmd == 0x4c || cmd == 0x1a) _ _ moved (
          both_branches P (cmd == 0x54) _ _ moved (
            both_branches P (cmd == 0x48) _ _ moved (
              both_branches P (cmd == 0x16) _ _ moved
                (both_branches P (cmd == 0x1c && leb 6 (length args)) _ _ moved moved))))) in
      both_branches P (v.pending_esc_params - 1 == 0) _ _ applied moved

  handle_data-IsBusier :
      (m : Mode) (b : ℕ) (v : Vfd) → IsBusier cycle v (handle_data m font cycle b v)
  handle_data-IsBusier Mode.normal b v = handle_normal-IsBusier b v
  handle_data-IsBusier Mode.esc b v = handle_esc-IsBusier b v
  handle_data-IsBusier Mode.esc_param_n b v = handle_param-IsBusier b v

  -- A sequence that is given up leaves the log and the busy time.
  abandon_keeps : (v : Vfd) (kind : ℕ) → IsBusier cycle v (set_busy cycle kind (abandon v))
  unfolding abandon set_busy
  abandon_keeps v kind =
      let put_off : IsBusier cycle v (set_busy cycle kind v) = (refl, refl, (kind, refl)) in
      both_branches (λ (w : Vfd). IsBusier cycle v (set_busy cycle kind w)) _ v _ put_off put_off

  write_command_byte-IsBusier :
      (b : ℕ) (v : Vfd) → IsBusier cycle (logged b v) (write_command_byte b cycle v)
  unfolding write_command_byte software_reset clear_display place_cursor set_busy try_finalize_m6
      mark_decoded_command
  write_command_byte-IsBusier b v =
      let u : Vfd = logged b v in
      both_branches (λ (w : Vfd). IsBusier cycle u w) (b == 0x40) _ _ (abandon_keeps u 1)
        (abandon_keeps u 2)

  write-IsBusier :
      (b port : ℕ) (v : Vfd)
      → tests port 0x40 ≡ false
      → IsBusier cycle (logged b v) (write font b cycle port v)
  unfolding write write_data_byte
  write-IsBusier b port v selected =
      let u : Vfd = logged b v in
      let P = λ (w : Vfd). IsBusier cycle u w in
      if_cases P (tests port 0x40) _ _ (λ unselected. absurd (ground (arith, selected, unselected)))
        (λ _.
          both_branches P (tests port 0x20) _ _ (write_command_byte-IsBusier b v)
            (handle_data-IsBusier v.mode b u))

-- No write changes the profile.
write_profile :
    (font : ℕ → List ℕ) (cycle b port : ℕ) (v : Vfd)
    → (write font b cycle port v).profile ≡ v.profile
unfolding write append_raw
write_profile font cycle b port v = elim (Bool-cases (tests port 0x40)) [
  | inl other ↦ rw other refl
  | inr selected ↦ (write-IsBusier font cycle b port v selected).1
]

pub run_profile :
    (font : ℕ → List ℕ) (accesses : List Access) (v : Vfd)
    → (run font accesses v).profile ≡ v.profile
unfolding run
run_profile font [] v = refl
run_profile font (a ∷ rest) v =
    run_profile font rest (write font a.byte a.cycle a.pio_port_b v)
    ∙ write_profile font a.cycle a.byte a.pio_port_b v

-- More than any one write puts off the busy time.
abbrev pub longest : Profile → ℕ
longest p = p.busy_cycles_char + p.busy_cycles_clear + p.busy_cycles_cursor

busy_cycles_between :
    (d : DisplayProfile) (kind : ℕ)
    → let p = configured d in (0 < busy_cycles kind p) × (busy_cycles kind p ≤ longest p)
unfolding busy_cycles configured
busy_cycles_between d kind =
    let a = at_least_one_pos d.busy_cycles_char in
    let b = at_least_one_pos d.busy_cycles_clear in
    let c = at_least_one_pos d.busy_cycles_cursor in
    (ground (arith, a, b, c), ground (arith, a, b, c))

-- A write that selects the display logs its byte, and the display is busy at that cycle, and for longer
-- than it was before, as long as the 64 bits of the cycle counter suffice.
pub write-status_read :
    (font : ℕ → List ℕ) (d : DisplayProfile) (v : Vfd) (b cycle port : ℕ)
    → v.profile ≡ configured d
    → tests port 0x40 ≡ false
    → max v.busy_until_cycle cycle + longest (configured d) < 18446744073709551616
    → let w = write font b cycle port v in
      (w.raw_log ≡ v.raw_log ++ (b ∷ []))
      × (v.busy_until_cycle < w.busy_until_cycle)
      × (status_read cycle w ≡ 0x80)
unfolding status_read append_raw
write-status_read font d v b cycle port profile selected fits =
    let busier = write-IsBusier font cycle b port v selected in
    let kind = busier.2.0 in
    let between = busy_cycles_between d kind in
    let same : busy_cycles kind v.profile ≡ busy_cycles kind (configured d) =
      ap (λ (p : Profile). busy_cycles kind p) profile in
    let until = busier.2.1 in
    (
      busier.0,
      omega (arith, until, same, between.0, between.1, fits),
      ground (arith, until, same, between.0, between.1, fits),
    )
