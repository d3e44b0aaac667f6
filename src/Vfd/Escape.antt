-- ===== src/Vfd/Escape.antt =====
-- How long a command waits for bytes.
use coin_line_emu.Base.{
  ℕ, zero, suc, ◌<◌, ◌≤◌, ◌≡◌, ap, subst, sym, refl, inl, inr, ◌⊎◌, false, List, [], ◌∷◌, arith,
  ◌==◌, length, take, All, both_branches, tests,
}
use coin_line_emu.Vfd.{Vfd, Mode, reset, set_busy}
use coin_line_emu.Vfd.Motion.{
  mark_decoded_command, try_finalize_m6, clear_display, software_reset, place_cursor,
}
use coin_line_emu.Vfd.Write.{
  append_raw, handle_esc, handle_param, handle_data, write_data_byte, abandon, logged,
  write_command_byte, write, Access, run,
}
use coin_line_emu.Vfd.Waiting.{
  owed, Waits, WaitsWell, handle_esc-Nearer, apply_param-Nearer, handle_normal-WaitsWell,
}

module _ (font : ℕ → List ℕ) where
  abandon_mode : (v : Vfd) → (abandon v).mode ≡ Mode.normal
  unfolding abandon
  abandon_mode v = by_mode v.mode refl
    where
      by_mode : (m : Mode) → v.mode ≡ m → (abandon v).mode ≡ Mode.normal
      by_mode Mode.normal e = rw e refl
      by_mode Mode.esc e = rw e refl
      by_mode Mode.esc_param_n e = rw e refl

  -- A write to the command register leaves the normal mode.
  write_command_byte_mode :
      (b cycle : ℕ) (v : Vfd) → (write_command_byte b cycle v).mode ≡ Mode.normal
  unfolding write_command_byte set_busy software_reset clear_display try_finalize_m6
      mark_decoded_command place_cursor
  write_command_byte_mode b cycle v =
      both_branches (λ (w : Vfd). w.mode ≡ Mode.normal) (b == 0x40) _ _ (abandon_mode (logged b v))
        (abandon_mode (logged b v))

  -- A mode that does not wait.
  normal-WaitsWell : (v : Vfd) → v.mode ≡ Mode.normal → WaitsWell v
  normal-WaitsWell v e = subst (λ (m : Mode). Waits m v.pending_esc_params) (sym e) tt

  -- A byte of data brings a waiting display nearer to the normal mode.
  abbrev Comes : Vfd → Vfd → Type 0
  Comes v w =
      WaitsWell w
      × (v.mode ≡ Mode.normal
          ⊎ owed w.mode w.pending_esc_params < owed v.mode v.pending_esc_params
          ⊎ w.mode ≡ Mode.normal)

  handle_data-Comes :
      (m : Mode) (b cycle : ℕ) (v : Vfd)
      → v.mode ≡ m
      → WaitsWell v
      → Comes v (handle_data m font cycle b v)
  handle_data-Comes Mode.normal b cycle v e h = (handle_normal-WaitsWell font cycle b v h, inl e)
  handle_data-Comes Mode.esc b cycle v e h =
      let near = handle_esc-Nearer font cycle b v in
      let owes : owed v.mode v.pending_esc_params ≡ 7 =
        ap (λ (m : Mode). owed m v.pending_esc_params) e in
      let w = handle_esc cycle b v in
      let to = λ (t : owed w.mode w.pending_esc_params < 7).
        subst (λ (n : ℕ). owed w.mode w.pending_esc_params < n) (sym owes) t in
      (near.0, inr (elim near.1 [ inl t ↦ inl (to t) | inr t ↦ inr t ]))
  handle_data-Comes Mode.esc_param_n b cycle v e h =
      let waits : 0 < v.pending_esc_params × v.pending_esc_params < 7 =
        subst (λ (m : Mode). Waits m v.pending_esc_params) e h in
      let near = apply_param-Nearer font cycle b v e waits.0 waits.1 in
      let owes : owed v.mode v.pending_esc_params ≡ v.pending_esc_params =
        ap (λ (m : Mode). owed m v.pending_esc_params) e in
      let w = handle_param font cycle b v in
      let to = λ (t : owed w.mode w.pending_esc_params < v.pending_esc_params).
        subst (λ (n : ℕ). owed w.mode w.pending_esc_params < n) (sym owes) t in
      (near.0, inr (elim near.1 [ inl t ↦ inl (to t) | inr t ↦ inr t ]))

  write_data_byte-Comes :
      (b cycle : ℕ) (v : Vfd) → WaitsWell v → Comes v (write_data_byte font b cycle v)
  unfolding write_data_byte append_raw
  write_data_byte-Comes b cycle v h = handle_data-Comes v.mode b cycle (logged b v) refl h

  write-WaitsWell :
      (b cycle port : ℕ) (v : Vfd) → WaitsWell v → WaitsWell (write font b cycle port v)
  unfolding write
  write-WaitsWell b cycle port v h =
      let P = λ (w : Vfd). WaitsWell w in
      both_branches P (tests port 0x40) v _ h (
        both_branches P (tests port 0x20) _ _
          (let w : Vfd = write_command_byte b cycle v in
            normal-WaitsWell w (write_command_byte_mode b cycle v))
          (write_data_byte-Comes b cycle v h).0)

  run-WaitsWell : (accesses : List Access) (v : Vfd) → WaitsWell v → WaitsWell (run font accesses v)
  unfolding run
  run-WaitsWell [] v h = h
  run-WaitsWell (a ∷ rest) v h =
      run-WaitsWell rest _ (write-WaitsWell a.byte a.cycle a.pio_port_b v h)

  reset-WaitsWell : (v : Vfd) → WaitsWell (reset v)
  unfolding reset
  reset-WaitsWell v = tt

  -- A write that selects the data register.
  abbrev pub IsData : Access → Type 0
  IsData a = tests a.pio_port_b 0x40 ≡ false × tests a.pio_port_b 0x20 ≡ false

  data_access-Comes :
      (a : Access) (v : Vfd)
      → IsData a
      → WaitsWell v
      → Comes v (write font a.byte a.cycle a.pio_port_b v)
  unfolding write
  data_access-Comes a v is_data h =
      let comes = write_data_byte-Comes a.byte a.cycle v h in rw (is_data.0, is_data.1) comes

  owed_none : (v : Vfd) → WaitsWell v → owed v.mode v.pending_esc_params < 1 → v.mode ≡ Mode.normal
  owed_none v h less = by_mode v.mode h less
    where
      by_mode :
          (m : Mode)
          → Waits m v.pending_esc_params
          → owed m v.pending_esc_params < 1
          → m ≡ Mode.normal
      by_mode Mode.normal h less = refl
      by_mode Mode.esc h less = absurd (omega arith)
      by_mode Mode.esc_param_n h less = absurd (omega (arith, h.0, less))

  normal_within :
      (n : ℕ) (after : List Access) (v : Vfd)
      → WaitsWell v
      → owed v.mode v.pending_esc_params ≤ n
      → n ≤ length after
      → All IsData after
      → (k : ℕ) × (k ≤ n) × ((run font (take k after) v).mode ≡ Mode.normal)
  unfolding run
  normal_within zero after v h owes fits is_data = (0, omega arith, owed_none v h (omega arith))
  normal_within (suc n) [] v h owes fits is_data = absurd (omega arith)
  normal_within (suc n) (a ∷ after) v h owes fits is_data =
      let w = write font a.byte a.cycle a.pio_port_b v in
      let comes = data_access-Comes a v is_data.0 h in
      elim comes.1 [
        | inl now ↦ (0, omega arith, now)
        | inr (inl nearer) ↦
            let rest =
              normal_within n after w comes.0 (omega (arith, nearer, owes)) (omega arith)
                is_data.1 in
            (suc rest.0, omega (arith, rest.1), rest.2)
        | inr (inr next) ↦ (1, omega arith, next)
      ]

  -- After any writes to a display that was reset, at most 7 of the next bytes of data pass before its
  -- parser is in the normal mode.
  pub run-normal :
      (v : Vfd) (before after : List Access)
      → 7 ≤ length after
      → All IsData after
      → (k : ℕ) × (k ≤ 7)
        × ((run font (take k after) (run font before (reset v))).mode ≡ Mode.normal)
  run-normal v before after fits is_data =
      let w = run font before (reset v) in
      let h = run-WaitsWell before (reset v) (reset-WaitsWell v) in
      normal_within 7 after w h (owed_bound w.mode w.pending_esc_params h) fits is_data
    where
      owed_bound : (m : Mode) (n : ℕ) → Waits m n → owed m n ≤ 7
      owed_bound Mode.normal n h = omega arith
      owed_bound Mode.esc n h = omega arith
      owed_bound Mode.esc_param_n n h = omega (arith, h.1)
