-- ===== src/Microwire/Recognise.antt =====
-- Which bodies the loop of `microwire_wire_body_is_eprm_ewen` finds, and what the encoder of
-- millennium_eprm_command.h puts on the wire.
use coin_line_emu.Base.{
  ℕ, zero, suc, ◌+◌, ◌-◌, ◌*◌, ◌/◌, ◌%◌, ◌≤◌, ◌<◌, ◌≡◌, ◌≢◌, refl, ◌↔◌, inl, inr, true, arith, ◌==◌,
  ==→eq, eq_self, Bool-cases,
}
use native.Mathlib.Decide.{ℕ_discrete}
use coin_line_emu.Base.Bits.{all_below, all_below_sound}
use coin_line_emu.Microwire.Command.{wire_body, ewen_below, is_eprm_ewen}

ewen_table : all_below 256 (λ c. wire_body 0x30 c == 0x4c0 + c / 2 % 64) ≡ true
unfolding all_below wire_body
ewen_table = refl

wire_body_ewen : (c : ℕ) → c < 256 → wire_body 0x30 c ≡ 0x4c0 + c / 2 % 64
wire_body_ewen c h = ==→eq _ _ (all_below_sound 256 _ c ewen_table h)

-- A body that the loop finds is the image of an offset below `n`.
ewen_below_sound :
    (n body : ℕ) → ewen_below n body ≡ true → (c : ℕ) × (c < n) × (wire_body 0x30 c ≡ body)
unfolding ewen_below
ewen_below_sound zero body h = absurd (ground arith)
ewen_below_sound (suc n) body h = elim (Bool-cases (wire_body 0x30 n == body)) [
  | inl e ↦ (n, omega arith, ==→eq _ _ e)
  | inr e ↦ let (c, below, image) = ewen_below_sound n body (rw e at h) in (c, omega arith, image)
]

ewen_below_complete : (n body c : ℕ) → c < n → wire_body 0x30 c ≡ body → ewen_below n body ≡ true
unfolding ewen_below
ewen_below_complete zero body c h e = elim h [ ]
ewen_below_complete (suc n) body c h e = elim (ℕ_discrete c n) [
  | yes same ↦ rw (← same, e, eq_self)
  | no other ↦ elim (Bool-cases (wire_body 0x30 n == body)) [
    | inl found ↦ rw found
    | inr missed ↦ rw missed (ewen_below_complete n body c (omega arith) e)
  ]
]

-- The bodies that the device takes for an erase/write enable by the encoder's images are exactly
-- 0x4c0 to 0x4ff.
pub is_eprm_ewen_iff : (body : ℕ) → (is_eprm_ewen body ≡ true) ↔ ((0x4c0 ≤ body) × (body < 0x500))
unfolding is_eprm_ewen
is_eprm_ewen_iff body = (range, image)
  where
    range : ewen_below 256 body ≡ true → (0x4c0 ≤ body) × (body < 0x500)
    range h =
        let (c, below, e) = ewen_below_sound 256 body h in
        (omega (arith, wire_body_ewen c below), omega (arith, wire_body_ewen c below))

    image : (0x4c0 ≤ body) × (body < 0x500) → ewen_below 256 body ≡ true
    image h =
        ewen_below_complete 256 body ((body - 0x4c0) * 2) (omega arith)
          (omega (arith, wire_body_ewen ((body - 0x4c0) * 2) (omega arith)))

read_table : all_below 256 (λ c. wire_body 0x80 c == 0x600 + c / 2) ≡ true
unfolding all_below wire_body
read_table = refl

write_table : all_below 256 (λ c. wire_body 0x40 c == 0x500 + c / 2) ≡ true
unfolding all_below wire_body
write_table = refl

-- For every byte offset, the encoder's READ image is opcode 6 and its WRITE image opcode 5, each
-- with the word that holds the byte as its address field, and neither is taken for a write enable.
pub wire_body_fields :
    (c : ℕ)
    → c < 256
    → (wire_body 0x80 c ≡ 0x600 + c / 2)
      × (wire_body 0x40 c ≡ 0x500 + c / 2)
      × (is_eprm_ewen (wire_body 0x80 c) ≢ true)
      × (is_eprm_ewen (wire_body 0x40 c) ≢ true)
wire_body_fields c h = (
  read_image,
  write_image,
  λ e. omega (arith, (is_eprm_ewen_iff (wire_body 0x80 c)).0 e, read_image),
  λ e. omega (arith, (is_eprm_ewen_iff (wire_body 0x40 c)).0 e, write_image),
)
  where
    read_image : wire_body 0x80 c ≡ 0x600 + c / 2
    read_image = ==→eq _ _ (all_below_sound 256 _ c read_table h)

    write_image : wire_body 0x40 c ≡ 0x500 + c / 2
    write_image = ==→eq _ _ (all_below_sound 256 _ c write_table h)
