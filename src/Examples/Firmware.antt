-- ===== src/Examples/Firmware.antt =====
-- The hash of the firmware check.
use coin_line_emu.Base.{ℕ, ◌≡◌, refl, List, [], ◌∷◌, ◌++◌, arith, ◌%◌, some}
use coin_line_emu.Base.Text.{bytes}
use coin_line_emu.Vfd.Snapshot.{low_digit}
use coin_line_emu.Sha256.{
  reset, update, finish, sha256_hex, hex_digits, digest, padded_state, update_loop, flush,
  last_block, transform, compress, word_bytes, rounds, round, extend_words, block_words, rotr, ch,
  maj, big_sigma0, big_sigma1, small_sigma0, small_sigma1, copy_at,
}
use coin_line_emu.Mach.{decode_phys_ram, decode_phys_ram-sram_chip}
use coin_line_emu.Voice.Phrase.{Lookup, lookup_phrase, find_segment, resolve, chip_base_of}
use coin_line_emu.Sha256.Reference.{reference_hash}
use coin_line_emu.Sha256.Whole.{finish-update}
use coin_line_emu.Sha256.Streaming.{update-append}

-- The hash of the letters abc.
sha256_abc :
    sha256_hex (bytes "abc")
    ≡ bytes "ba7816bf8f01cfea414140de5dae2223b00361a396177a9cb410ff61f20015ad"
unfolding sha256_hex bytes hex_digits finish digest padded_state update update_loop reset flush
    last_block transform compress word_bytes low_digit rounds round extend_words block_words rotr ch
    maj big_sigma0 big_sigma1 small_sigma0 small_sigma1 copy_at
sha256_abc = refl

finish-update_example : (finish (update (bytes "abc") reset)).1 ≡ reference_hash (bytes "abc")
unfolding bytes
finish-update_example = finish-update (bytes "abc") (omega arith)

update-append_example :
    update (bytes "ab" ++ bytes "c") reset ≡ update (bytes "c") (update (bytes "ab") reset)
unfolding bytes reset
update-append_example = update-append (bytes "ab") (bytes "c") reset (omega arith) (omega arith)

decode_phys_ram-sram_chip_example : 0xc0005 % 0x100000 ≡ 0x1c0005 % 0x100000
unfolding decode_phys_ram
decode_phys_ram-sram_chip_example = decode_phys_ram-sram_chip 0 0xc0005 0x1c0005 0x80000 5 refl refl

-- A directory of one message, which starts at byte 8.
abbrev voice_memory : List ℕ
voice_memory = 0 ∷ 0x5a ∷ 0xa5 ∷ 0x69 ∷ 0x55 ∷ 0 ∷ 4 ∷ 1 ∷ 0 ∷ 0 ∷ []

abbrev found_message : Lookup
found_message = record {
  upd_sample_index = 0;
  resolved_segment_index = 0;
  segment_base_abs = 0;
  msg_count = 1;
  phrase_msg_index = 0;
}

lookup_phrase_first : lookup_phrase voice_memory 0 0 ≡ some found_message
unfolding lookup_phrase find_segment resolve chip_base_of
lookup_phrase_first = refl
