-- ===== src/Examples/Cards.antt =====
-- The card readers.
use coin_line_emu.Base.{
  ℕ, ◌/◌, ◌%◌, ◌^◌, ◌≡◌, refl, true, false, List, [], ◌∷◌, ◌++◌, arith, get_or, ◌||◌, some,
}
use coin_line_emu.Base.Text.{bytes, is_digit}
use coin_line_emu.Card.{
  Card, no_error, new, xor_lrc_byte, decode_track2_ascii, rebuild_bits_from_track, arm_swipe,
  cycles_per_bit, data_byte, is_legal,
}
use coin_line_emu.Card.Track2.{track_of, payload_of, decode_track2_ascii-track}
use coin_line_emu.Card.Swipe.{data_byte-track}
use coin_line_emu.Smartcard.{
  Smartcard, SmartFixture, default_fixture as smart_fixture, new as new_smartcard,
  negotiate_protocol, no_protocol,
}
use coin_line_emu.Smartcard.Negotiate.{
  outcome, negotiable, is_chosen, negotiate_protocol-negotiable,
}

abbrev pan : List ℕ
pan = 52 ∷ 50 ∷ []

abbrev extra : List ℕ
extra = 57 ∷ 61 ∷ 48 ∷ []

decode_track2_ascii-track_example :
    decode_track2_ascii (track_of pan extra ++ xor_lrc_byte (track_of pan extra) ∷ []) true false
    ≡ record { error = no_error; pan = pan; body = payload_of pan extra; reverse_swipe = false }
unfolding is_digit is_legal
decode_track2_ascii-track_example =
    decode_track2_ascii-track pan extra (refl, (refl, tt)) (omega arith) (refl, (refl, (refl, tt)))

-- A track of two bytes at 210 bits in a second.
abbrev loaded : Card
loaded = record new { fix = record new.fix { payload_track_ascii = 59 ∷ 63 ∷ [] } }

data_byte-track_example :
    data_byte 530000 (arm_swipe 1000 12288000 (rebuild_bits_from_track loaded))
    ≡ get_or (59 ∷ 63 ∷ []) 1 0 / 2 ^ 1 % 2
unfolding arm_swipe rebuild_bits_from_track cycles_per_bit
data_byte-track_example =
    data_byte-track loaded 1000 12288000 1 1 530000 (omega arith) (omega arith) (omega arith)
      (omega arith)

-- A clock of 0, which arming replaces by 1.
abbrev fixture_text : List ℕ
unfolding bytes
fixture_text = bytes "{\"payload_body\": \";42=9?\", \"force_lrc_error\": true}"

-- A memory card whose clock has been stored, with its four bytes of memory.
abbrev chip : SmartFixture
chip = record smart_fixture { atr = 0x3b ∷ 0x02 ∷ 0x14 ∷ []; memory = 9 ∷ 8 ∷ 7 ∷ 6 ∷ [] }

abbrev chip_card : Smartcard
chip_card = record new_smartcard { fixture = chip; card_present = true }

abbrev waiting_chip : Smartcard
waiting_chip = record chip_card { atr_enqueued = true }

-- An answer that offers protocol 1, on a card that is no memory card.
abbrev processor_chip : Smartcard
processor_chip = record chip_card {
  fixture = record chip { protocol = 116 ∷ 49 ∷ []; atr = 0x3b ∷ 0x80 ∷ 0x01 ∷ [] };
}

negotiate_protocol-negotiable_example :
    outcome (negotiate_protocol false processor_chip)
    ≡ some
        (negotiable false processor_chip, negotiable false processor_chip || is_chosen no_protocol)
negotiate_protocol-negotiable_example = negotiate_protocol-negotiable false processor_chip
