-- ===== src/Security.antt =====
-- The security lines, src/mame/coinline/millennium_security_model.{h,cpp}.
use coin_line_emu.Base.Int.{ℤ, pos, negsuc}
use coin_line_emu.Base.{ℕ, ◌+◌, ◌%◌, ◌<◌, ◌≤◌, ◌≡◌, ◌≢◌, ◌||◌, arith, leb, ◌==◌, if◌then◌else◌, u64}

pub record Security : Type 0 where
  pub debounce_cycles : ℕ
  pub stable : ℕ
  pub last_raw : ℕ
  pub last_change_cycle : ℕ

-- The member initialisers.
abbrev pub new : Security
new = record { debounce_cycles = 8; stable = 0; last_raw = 0; last_change_cycle = 0 }

-- A negative time is none.
unfoldable pub configure : ℤ → Security → Security
configure (pos n) s = record s { debounce_cycles = n }
configure (negsuc n) s = record s { debounce_cycles = 0 }

unfoldable pub reset : Security → Security
reset s = record s { stable = 0; last_raw = 0; last_change_cycle = 0 }

unfoldable pub read_lines : ℕ → ℕ → Security → Security × ℕ
read_lines sec_ioport_bits cycle s0 =
    let raw = sec_ioport_bits % 16 in
    let s =
      if raw == s0.last_raw then s0 else record s0 { last_raw = raw; last_change_cycle = cycle } in
    let settled =
      s.debounce_cycles == 0 || leb (u64 (s.last_change_cycle + s.debounce_cycles)) cycle in
    let t = if settled then record s { stable = raw } else s in (t, t.stable % 16)

-- A level that differs from the last one is seen only when the lines have kept it for the debounce
-- time.
read_lines-settles :
    (bits at later : ℕ) (s : Security)
    → bits % 16 ≢ s.last_raw
    → at + s.debounce_cycles < 18446744073709551616
    → 0 < s.debounce_cycles
    → at ≤ later
    → let first = read_lines bits at s in
      (first.1 ≡ s.stable % 16)
      × ((read_lines bits later first.0).1
          ≡ (if leb (at + s.debounce_cycles) later then bits % 16 else s.stable % 16))
unfolding read_lines
read_lines-settles bits at later s new_level room positive after =
    (ground (arith, new_level, room, positive), ground (arith, new_level, room, positive, after))
