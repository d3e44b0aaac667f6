-- ===== src/Vfd/ElevenLine.antt =====
-- The panel of eleven lines, src/mame/coinline/millennium_vfd_profile_model.cpp, and a cell of a
-- display as UTF-8, src/mame/coinline/millennium_vfd_cell_utf8.h.
use coin_line_emu.Base.Bits.{all_below, all_below_sound}
use coin_line_emu.Base.{
  ℕ, ◌+◌, ◌-◌, ◌*◌, ◌/◌, ◌%◌, ◌<◌, ◌≡◌, refl, Bool, true, false, ◌&&◌, ◌||◌, List, [], ◌∷◌, Option,
  none, some, ltb, leb, ◌==◌, if◌then◌else◌, get_or, set, replicate, length, min, arith,
}
use coin_line_emu.Base.Int.{ℤ, pos, negsuc}

-- `profile_11line_model`
pub record ElevenLine : Type 0 where
  pub active_page : ℕ
  pub active_line : ℕ
  pub blink_enabled : Bool
  pub softkey_labels : List (List ℕ)

unfoldable pub reset_lines : ElevenLine
reset_lines = record {
  active_page = 0;
  active_line = 0;
  blink_enabled = false;
  softkey_labels = replicate 10 [];
}

unfoldable pub select_page : ℕ → ElevenLine → ElevenLine
select_page page m = record m { active_page = page % 4 }

unfoldable pub select_line : ℤ → ElevenLine → ElevenLine
select_line (pos n) m = record m { active_line = min n 10 }
select_line (negsuc n) m = record m { active_line = 0 }

unfoldable pub enable_blink : Bool → ElevenLine → ElevenLine
enable_blink enabled m = record m { blink_enabled = enabled }

unfoldable pub label_softkey : ℕ → List ℕ → ElevenLine → ElevenLine
label_softkey i label m =
    if leb (length m.softkey_labels) i
    then m
    else record m { softkey_labels = set m.softkey_labels i label }

-- The UTF-8 bytes of a code point of at most 16 bits; a larger one has none.
unfoldable pub append_codepoint : ℕ → List ℕ
append_codepoint cp =
    if leb cp 0x7f
    then cp ∷ []
    else if leb cp 0x7ff
    then (0xc0 + cp / 64 % 32) ∷ (0x80 + cp % 64) ∷ []
    else if leb cp 0xffff
    then (0xe0 + cp / 4096 % 16) ∷ (0x80 + cp / 64 % 64) ∷ (0x80 + cp % 64) ∷ []
    else []

-- The accented letters and signs from 0xa1 on.
abbrev pub latin : List ℕ
latin =
    0x00e0 ∷ 0x00e1 ∷ 0x00e2 ∷ 0x00e4 ∷ 0x00e8 ∷ 0x00e9 ∷ 0x00ea ∷ 0x00eb ∷ 0x00ed ∷ 0x00ee ∷ 0x00ef
    ∷ 0x00e7 ∷ 0x00f9 ∷ 0x00fa ∷ 0x00fb ∷ 0x00fc ∷ 0x00f3 ∷ 0x00f4 ∷ 0x00f6 ∷ 0x00f1 ∷ 0x00b8
    ∷ 0x00a2 ∷ 0x25c6 ∷ []

-- The bytes behind 0xb7.
unfoldable pub append_high_cell : ℕ → List ℕ
append_high_cell b =
    if b == 0xb8
    then append_codepoint 0x2588
    else if b == 0xb9
    then append_codepoint 0x25bc
    else if b == 0xba
    then append_codepoint 0x2016
    else if leb b 0xbf || b == 0xc0
    then b' ' ∷ []
    else if leb b 0xfe
    then append_codepoint (0x30a1 + (b - 0xc1))
    else append_codepoint 0x00ba

unfoldable pub append_cell : ℕ → Bool → List ℕ
append_cell b katakana_mode =
    if ltb b 0x20
    then b'.' ∷ []
    else if leb b 0x7e
    then b ∷ []
    else if b == 0x7f
    then append_codepoint 0x2302
    else if leb b 0x9f
    then b' ' ∷ []
    else if b == 0xa0
    then append_codepoint 0x00a0
    else if katakana_mode && leb 0xa1 b && leb b 0xdf
    then append_codepoint (0xff61 + (b - 0xa1))
    else if leb 0xa1 b && leb b 0xb7
    then append_codepoint (get_or latin (b - 0xa1) 0)
    else append_high_cell b

-- The code point that a text is the UTF-8 of, if it is that of one, in its shortest form.
unfoldable pub code_point : List ℕ → Option ℕ
code_point (a ∷ []) = if ltb a 0x80 then some a else none
code_point (a ∷ b ∷ []) =
    if leb 0xc2 a && ltb a 0xe0 && leb 0x80 b && ltb b 0xc0
    then some ((a - 0xc0) * 64 + (b - 0x80))
    else none
code_point (a ∷ b ∷ c ∷ []) =
    let cp = (a - 0xe0) * 4096 + (b - 0x80) * 64 + (c - 0x80) in
    if leb 0xe0 a
      && ltb a 0xf0
      && leb 0x80 b
      && ltb b 0xc0
      && leb 0x80 c
      && ltb c 0xc0
      && leb 0x800 cp
    then some cp
    else none
code_point _ = none

abbrev one_code_point : List ℕ → Bool
one_code_point s = elim (code_point s) [ some cp ↦ leb 0x20 cp | none ↦ false ]

-- Every byte of a cell is shown as exactly one code point that is no control character, whichever the
-- font.
pub append_cell-code_point :
    (b : ℕ) (katakana_mode : Bool) → b < 256 → one_code_point (append_cell b katakana_mode) ≡ true
unfolding all_below append_cell append_codepoint append_high_cell code_point
append_cell-code_point b true h =
    all_below_sound 256 (λ c. one_code_point (append_cell c true)) b refl h
append_cell-code_point b false h =
    all_below_sound 256 (λ c. one_code_point (append_cell c false)) b refl h

-- A code point of 16 bits at most is read back from its UTF-8.
pub code_point-append_codepoint :
    (cp : ℕ) → cp < 0x10000 → code_point (append_codepoint cp) ≡ some cp
unfolding append_codepoint code_point
code_point-append_codepoint cp h = ground arith
