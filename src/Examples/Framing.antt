-- ===== src/Examples/Framing.antt =====
-- NCC frames and sessions.
use coin_line_emu.Base.{◌≡◌, [], ◌∷◌, arith, All}
use coin_line_emu.Ncc.{
  Frame, ok, encode, encoded, decode, compute_crc16, crc_bytes, crc_step, crc_rounds,
}
use coin_line_emu.Ncc.Codec.{IsByte, IsFrame, decode-encode}
use coin_line_emu.Ncc.Strict.{encode-decode}
use coin_line_emu.Ncc.Session.{Session, start, waiting_ack, failed}

abbrev hello : Frame
hello = record { control = 0x0a; term_id = 1 ∷ 2 ∷ 3 ∷ 4 ∷ 5 ∷ []; payload = 0x41 ∷ 0x42 ∷ [] }

decode-encode_example : decode (encode hello) ≡ ok hello
decode-encode_example = decode-encode hello (omega arith)

hello-bytes : All IsByte (encode hello)
unfolding encode encoded compute_crc16 crc_bytes crc_step crc_rounds
hello-bytes = omega arith

encode-decode_example : (encode hello ≡ encode hello) × IsFrame hello
encode-decode_example = encode-decode (encode hello) hello hello-bytes decode-encode_example

abbrev waiting : Session
waiting = record (start 3) { state = waiting_ack; local_packet_id = 2 }

abbrev broken : Session
broken = record (start 3) { state = failed; retry_count = 3 }
