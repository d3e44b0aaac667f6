-- ===== src/Microwire.antt =====
-- The serial EEPROM of src/mame/coinline/millennium_microwire_93c66.{h,cpp}, with the command
-- encoder of millennium_eprm_command.h that it calls.
-- The two callbacks are outputs: an operation returns the list of calls that it makes.
pub mod Command
pub mod Recognise
pub mod Protocol
pub mod Invariant
pub mod Protection
pub mod Session
use coin_line_emu.Base.{
  ℕ, zero, suc, ◌+◌, ◌-◌, ◌*◌, ◌/◌, ◌%◌, ◌^◌, Bool, true, false, not, ◌&&◌, ◌||◌, List, [], ◌∷◌,
  ◌++◌, bit_or, ltb, leb, ◌==◌, if◌then◌else◌, get_or, set, take, replicate, length, u8, u16, u32,
  bit_of, tests, is_odd,
}
use Command.{is_eprm_ewen}

-- `k_capacity_bytes`
abbrev pub capacity_bytes : ℕ
capacity_bytes = 512

pub data Phase : Type 0 where
  idle wait_start command_stream read_word_out write_word_in : Phase

-- The `op` strings of the access trace.
pub data Op : Type 0 where
  ewen ewds erase_all erase_word read write write_rejected : Op

-- A call of `m_access_trace_cb` or of `m_write_cb`.
pub data Call : Type 0 where
  trace : Op → ℕ → ℕ → Call
  mirror : ℕ → ℕ → Call

pub record Chip : Type 0 where
  pub mem : List ℕ
  pub cs : Bool
  pub data_out : Bool
  pub prev_sk : Bool
  pub write_enabled : Bool
  pub phase : Phase
  pub sr_bits : ℕ
  pub sr_len : ℕ
  pub word_addr : ℕ
  pub read_bit_idx : ℕ
  pub write_shift : ℕ
  pub write_accum : ℕ
  pub write_commit : Bool

unfoldable pub power_on : Chip
power_on = record {
  mem = replicate capacity_bytes 0xff;
  cs = false;
  data_out = true;
  prev_sk = false;
  write_enabled = false;
  phase = idle;
  sr_bits = 0;
  sr_len = 0;
  word_addr = 0;
  read_bit_idx = 0;
  write_shift = 0;
  write_accum = 0;
  write_commit = false;
}

-- `reset` writes every field.
unfoldable pub reset : Chip → Chip
reset c = power_on

-- `load_from_span`; a null pointer is the empty list.
unfoldable pub load_from_span : List ℕ → Chip → Chip
load_from_span src c = record c {
  mem = take capacity_bytes src ++ replicate (capacity_bytes - length src) 0xff;
}

-- `read_word_le`: the byte at the even address is the high one.
unfoldable pub read_word_le : List ℕ → ℕ → ℕ
read_word_le mem word_addr =
    let base = word_addr % 256 * 2 in
    u16 (bit_or (get_or mem base 0 * 2 ^ 8) (get_or mem (base + 1) 0))

unfoldable pub write_word_le : List ℕ → ℕ → ℕ → List ℕ
write_word_le mem word_addr data_be =
    let base = word_addr % 256 * 2 in
    set (set mem base (data_be / 2 ^ 8 % 256)) (base + 1) (data_be % 256)

-- `perform_erase_all_words` from word `w` on, with `left` rounds left.
unfoldable pub erase_words : ℕ → ℕ → List ℕ → List ℕ × List Call
erase_words zero w mem = (mem, [])
erase_words (suc left) w mem =
    let mem' = write_word_le mem (w % 256) 0xffff in
    let (last, calls) = erase_words left (w + 1) mem' in
    (last, mirror (w % 256 * 2) (read_word_le mem' (w % 256)) ∷ calls)

unfoldable pub perform_erase_all_words : Chip → Chip × List Call
perform_erase_all_words c =
    let (mem', calls) = erase_words 256 0 c.mem in
    (record c { mem = mem' }, trace erase_all 0 0 ∷ calls)

-- The fields that both edges of the chip select clear.
abbrev clear_shift : Phase → Chip → Chip
clear_shift p c = record c {
  phase = p;
  sr_bits = 0;
  sr_len = 0;
  read_bit_idx = 0;
  write_shift = 0;
  write_accum = 0;
  write_commit = false;
  data_out = true;
}

abbrev pub is_reading : Phase → Bool
is_reading read_word_out = true
is_reading _ = false

unfoldable pub set_chip_select : Bool → Chip → Chip × List Call
set_chip_select cs_high c =
    let c' = record c { cs = cs_high } in
    if not cs_high && c.cs
    then (
      record (clear_shift idle c') { prev_sk = false },
      if is_reading c.phase && leb 16 c.read_bit_idx
          then trace read c.word_addr (read_word_le c.mem c.word_addr) ∷ []
          else [],
    )
    else if cs_high && not c.cs
    then (clear_shift wait_start c', [])
    else (c', [])

-- `wait_start` with the given data-in level.
unfoldable pub start_bit : Bool → Chip → Chip × List Call
start_bit true c = (record c { phase = command_stream; sr_bits = 1; sr_len = 1 }, [])
start_bit false c = (c, [])

unfoldable pub begin_read_output : ℕ → Chip → Chip
begin_read_output addr c = record c {
  word_addr = addr;
  phase = read_word_out;
  read_bit_idx = 0;
  data_out = true;
}

unfoldable pub finish_write_word : ℕ → ℕ → Chip → Chip × List Call
finish_write_word addr data_be c = (
  record c { mem = write_word_le c.mem addr data_be },
  trace write addr data_be ∷ mirror (addr * 2) data_be ∷ [],
)

-- The end of most commands.
abbrev await_start : Chip → Chip
await_start c = record c { phase = wait_start; data_out = true }

-- The commands that the opcode field selects.
unfoldable pub execute_opcode : ℕ → ℕ → Chip → Chip × List Call
execute_opcode opcode addr c =
    if opcode == 6
    then (begin_read_output addr c, [])
    else if opcode == 5
    then (
      record c {
        phase = write_word_in;
        write_shift = 0;
        write_accum = 0;
        write_commit = c.write_enabled;
      },
      [],
    )
    else if opcode == 7 && c.write_enabled
    then (let mem' = write_word_le c.mem addr 0xffff in
        (
          record c { mem = mem'; phase = wait_start },
          trace erase_word addr 0xffff ∷ mirror (addr * 2) (read_word_le mem' addr) ∷ [],
        ))
    else (await_start c, [])

-- The eleven-bit body, once it is complete.
unfoldable pub execute : ℕ → Chip → Chip × List Call
execute body c0 =
    let opcode = u8 (body / 2 ^ 8 % 8) in
    let addr = u8 (body % 256) in
    let c = record c0 { word_addr = addr } in
    if body == 0x180
    then (await_start (record c { write_enabled = true }), trace ewen 0 0 ∷ [])
    else if body == 0x44a || is_eprm_ewen body
    then (await_start (record c { write_enabled = true }), trace ewen (body % 256) body ∷ [])
    else if body == 0x000
    then (await_start (record c { write_enabled = false }), trace ewds 0 0 ∷ [])
    else if body == 0x100
    then (let (c', calls) = if c.write_enabled then perform_erase_all_words c else (c, []) in
        (await_start c', calls))
    else execute_opcode opcode addr c

unfoldable pub command_bit : Bool → Chip → Chip × List Call
command_bit di c0 =
    let c = record c0 {
      sr_bits = u32 (bit_or (c0.sr_bits * 2) (bit_of di));
      sr_len = u32 (c0.sr_len + 1);
    } in
    if ltb c.sr_len 12 then (c, []) else execute (u16 (c.sr_bits / 2 % 2 ^ 11)) c

unfoldable pub read_bit : Chip → Chip × List Call
read_bit c0 =
    let w = read_word_le c0.mem c0.word_addr in
    let c = record c0 { read_bit_idx = u32 (c0.read_bit_idx + 1) } in
    if c.read_bit_idx == 17
    then (await_start c, trace read c.word_addr w ∷ [])
    else (record c { data_out = is_odd (w / 2 ^ (16 - c.read_bit_idx)) }, [])

unfoldable pub write_bit : Bool → Chip → Chip × List Call
write_bit di c0 =
    let c = record c0 {
      write_accum = u16 (bit_or (c0.write_accum * 2) (bit_of di));
      write_shift = u32 (c0.write_shift + 1);
    } in
    if leb 16 c.write_shift
    then (let (c', calls) =
          if c.write_commit
          then finish_write_word c.word_addr c.write_accum c
          else (c, trace write_rejected c.word_addr c.write_accum ∷ []) in
        (
          record c' { phase = wait_start; write_shift = 0; write_accum = 0; write_commit = false },
          calls,
        ))
    else (c, [])

-- The `switch` on the phase, at a rising edge.
unfoldable pub rising_edge : Phase → Bool → Chip → Chip × List Call
rising_edge idle di c = start_bit di (record c { phase = wait_start })
rising_edge wait_start di c = start_bit di c
rising_edge command_stream di c = command_bit di c
rising_edge read_word_out di c = read_bit c
rising_edge write_word_in di c = write_bit di c

unfoldable pub notify_port_b_clock : ℕ → ℕ → Bool → Chip → Chip × List Call
notify_port_b_clock prev_b new_b di c0 =
    let prev_sk = tests prev_b 0x80 in
    let new_sk = tests new_b 0x80 in
    let c = record c0 { prev_sk = new_sk } in
    if not c.cs
    then (c, [])
    else if not (not prev_sk && new_sk)
    then (c, [])
    else rising_edge c.phase di c
