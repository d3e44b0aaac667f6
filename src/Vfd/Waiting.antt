-- ===== src/Vfd/Waiting.antt =====
-- The bytes that a command waits for, under each byte of data.
use coin_line_emu.Base.{
  ℕ, ◌+◌, ◌-◌, ◌%◌, ◌<◌, ◌≡◌, subst, sym, refl, inl, inr, ◌⊎◌, ◌&&◌, ◌||◌, List, arith, leb, ◌==◌,
  ltb, if_false, both_branches,
}
use coin_line_emu.Vfd.{Vfd, Mode, set_busy}
use coin_line_emu.Vfd.Motion.{
  mark_decoded_command, try_finalize_m6, clear_display, home_cursor, carriage_return, line_feed,
  backspace, horizontal_tab, software_reset,
}
use coin_line_emu.Vfd.Glyph.{write_glyph_byte}
use coin_line_emu.Vfd.Write.{
  await_params, handle_mode, handle_font, handle_character, handle_normal, handle_esc, handle_param,
  log_unknown_control,
}

-- How many more bytes a mode takes at most before it is the normal one.
abbrev pub owed : Mode → ℕ → ℕ
owed Mode.normal n = 0
owed Mode.esc n = 7
owed Mode.esc_param_n n = n

-- At most 7 bytes are owed, and a command that waits is owed one at least.
abbrev pub Waits : Mode → ℕ → Type 0
Waits Mode.normal n = Unit
Waits Mode.esc n = Unit
Waits Mode.esc_param_n n = 0 < n × n < 7

abbrev pub WaitsWell : Vfd → Type 0
WaitsWell v = Waits v.mode v.pending_esc_params

-- The mode is normal, or waits for fewer bytes than `n`.
abbrev pub Nearer : ℕ → Vfd → Type 0
Nearer n v = WaitsWell v × (owed v.mode v.pending_esc_params < n ⊎ v.mode ≡ Mode.normal)

module _ (font : ℕ → List ℕ) where
  pub handle_esc-Nearer : (cycle b : ℕ) (v : Vfd) → Nearer 7 (handle_esc cycle b v)
  unfolding handle_esc await_params set_busy try_finalize_m6 mark_decoded_command clear_display
      home_cursor software_reset
  handle_esc-Nearer cycle b v =
      let b2 = b % 0x80 in
      let P = λ (w : Vfd). Nearer 7 w in
      let one : 0 < 1 × 1 < 7 = (omega arith, omega arith) in
      let five : 0 < 5 × 5 < 7 = (omega arith, omega arith) in
      both_branches P (b2 == 0x40 || b2 == 0x02) _ _ (tt, inr refl)
        (both_branches P (b2 == 0x01) _ _ (tt, inr refl)
          (both_branches P (b2 == 0x48) _ _ (one, inl (omega arith))
            (both_branches P (b2 == 0x49) _ _ (tt, inr refl)
              (both_branches P (b2 == 0x53) _ _ (tt, inr refl)
                (both_branches P (b2 == 0x38 || b2 == 0x39) _ _ (five, inl (omega arith))
                  (both_branches P (b2 == 0x58 || b2 == 0x59) _ _ (tt, inr refl)
                    (both_branches P (b2 == 0x4c || b2 == 0x54 || b2 == 0x43) _ _
                      (
                        both_branches (λ (n : ℕ). 0 < n × n < 7) (b2 == 0x43) 2 1
                            (omega arith, omega arith) one,
                        inl (
                            both_branches (λ (n : ℕ). n < 7) (b2 == 0x43) 2 1 (omega arith)
                              (omega arith)),
                      )
                      (both_branches P (b2 == 0x00 || b2 == 0x03 || b2 == 0x0f) _ _ (tt, inr refl)
                        (tt, inr refl)))))))))

  pub apply_param-Nearer :
      (cycle b : ℕ) (v : Vfd)
      → v.mode ≡ Mode.esc_param_n
      → 0 < v.pending_esc_params
      → v.pending_esc_params < 7
      → Nearer v.pending_esc_params (handle_param font cycle b v)
  unfolding handle_param set_busy try_finalize_m6 mark_decoded_command
  apply_param-Nearer cycle b v e from to =
      let P = λ (w : Vfd). Nearer v.pending_esc_params w in
      let left = v.pending_esc_params - 1 in
      if_false P (left == 0) _ _ (tt, inr refl)
        (λ more.
          let some_left : 0 < left × left < 7 = (ground (arith, more), omega (arith, to)) in
          (
            subst (λ (m : Mode). Waits m left) (sym e) some_left,
            inl (
                subst (λ (m : Mode). owed m left < v.pending_esc_params) (sym e)
                  (omega (arith, from))),
          ))

  handle_mode-WaitsWell : (cycle b : ℕ) (v : Vfd) → WaitsWell v → WaitsWell (handle_mode cycle b v)
  unfolding handle_mode await_params set_busy try_finalize_m6 mark_decoded_command
  handle_mode-WaitsWell cycle b v h =
      let P = λ (w : Vfd). WaitsWell w in
      let one : 0 < 1 × 1 < 7 = (omega arith, omega arith) in
      both_branches P (b == 0x11) _ _ h (
        both_branches P (b == 0x12) _ _ h (
          both_branches P (b == 0x13) _ _ h (
            both_branches P (b == 0x14) _ _ h (
              both_branches P (b == 0x15) _ _ h
                (both_branches P (b == 0x16) _ _ one (both_branches P (b == 0x17) _ _ h h))))))

  handle_character-WaitsWell :
      (cycle b : ℕ) (v : Vfd) → WaitsWell v → WaitsWell (handle_character font cycle b v)
  unfolding handle_character await_params set_busy try_finalize_m6 mark_decoded_command
      log_unknown_control handle_font carriage_return line_feed write_glyph_byte
  handle_character-WaitsWell cycle b v h =
      let P = λ (w : Vfd). WaitsWell w in
      let one : 0 < 1 × 1 < 7 = (omega arith, omega arith) in
      let six : 0 < 6 × 6 < 7 = (omega arith, omega arith) in
      let font_code = both_branches P (b == 0x1d) _ _ h (both_branches P (b == 0x1e) _ _ h h) in
      let feed = both_branches P (ltb (v.panel.cursor_row + 1) v.profile.rows) _ _ h h in
      let glyph =
        both_branches P
          (leb v.profile.rows v.panel.cursor_row || leb v.profile.columns v.panel.cursor_col) _ _ h
          h in
      both_branches P (b == 0x18 || b == 0x19) _ _ h (
        both_branches P (b == 0x1a) _ _ one (
          both_branches P (leb 0x1d b && leb b 0x1f) _ _ font_code (
            both_branches P (b == 0x0d) _ _ h (
              both_branches P (b == 0x0a) _ _ feed
                (both_branches P (b == 0x1c) _ _ six (both_branches P (leb 0x20 b) _ _ glyph h))))))

  pub handle_normal-WaitsWell :
      (cycle b : ℕ) (v : Vfd) → WaitsWell v → WaitsWell (handle_normal font cycle b v)
  unfolding handle_normal set_busy try_finalize_m6 mark_decoded_command clear_display backspace
      horizontal_tab
  handle_normal-WaitsWell cycle b v h =
      let P = λ (w : Vfd). WaitsWell w in
      both_branches P (b == 0x1b) _ _ tt (
        both_branches P (b == 0x0e || b == 0x0c) _ _ h (
          both_branches P (b == 0x08) _ _ h (
            both_branches P (b == 0x09) _ _ h (
              both_branches P (leb 0x10 b && leb b 0x17) _ _ (handle_mode-WaitsWell cycle b v h)
                (handle_character-WaitsWell cycle b v h)))))
