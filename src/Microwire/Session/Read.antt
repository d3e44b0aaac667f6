-- ===== src/Microwire/Session/Read.antt =====
-- Word reads, bit by bit, and what a read gives after a write.
use mathlib.Core.List.{append-nil}
use native.Mathlib.Nat.{div-div-eq-div-mul, pow-suc}
use coin_line_emu.Base.{
  ℕ, zero, suc, ◌+◌, ◌*◌, ◌/◌, ◌%◌, ◌^◌, ◌<◌, ◌≡◌, refl, sym, ◌∙◌, ap, Bool, true, false, List, [],
  ◌∷◌, ◌++◌, arith, length, set, length-set, get_or-set_self, get_or-set_ne, is_odd, if◌then◌else◌,
  ◌==◌,
}
use coin_line_emu.Base.Bits.{bit_or_high_field}
use coin_line_emu.Microwire.{
  Chip, Call, trace, read, read_word_out, wait_start, capacity_bytes, execute, execute_opcode,
  begin_read_output, read_bit, rising_edge, read_word_le, write_word_le,
}
use coin_line_emu.Microwire.Protocol.{run, pulse, pulses, bits, read_loop}
use coin_line_emu.Microwire.Session.Ticks.{tick, ticks, run-pulses}
use coin_line_emu.Microwire.Session.Write.{
  IsReady, command, loaded, ticks-command, not_ewen, word_write,
}

-- The low `n` bits of `w` by their weights, the highest first.
top_bits : ℕ → ℕ → List Bool
top_bits zero w = []
top_bits (suc n) w = is_odd (w / 2 ^ n) ∷ top_bits n w

half-pow : (n w : ℕ) → w / 2 / 2 ^ n ≡ w / 2 ^ suc n
half-pow n w = div-div-eq-div-mul w 2 (2 ^ n) ∙ ap (λ (t : ℕ). w / t) (omega (arith, pow-suc 2 n))

top_bits-snoc : (n w : ℕ) → top_bits n (w / 2) ++ is_odd w ∷ [] ≡ top_bits (suc n) w
unfolding top_bits
top_bits-snoc zero w = ground arith
top_bits-snoc (suc n) w = rw (half-pow n w, top_bits-snoc n w)

top_bits-bits : (n w : ℕ) → top_bits n w ≡ bits n w
unfolding top_bits
top_bits-bits zero w = refl
top_bits-bits (suc n) w = sym (top_bits-snoc n w) ∙ rw (top_bits-bits n (w / 2))

execute_read :
    (a : ℕ) (c : Chip)
    → a < 256
    → execute (0x600 + a) c
      ≡ (record c { word_addr = a; phase = read_word_out; read_bit_idx = 0; data_out = true }, [])
unfolding execute execute_opcode begin_read_output
execute_read a c small = ground (arith, not_ewen (0x600 + a))

run-pulse : (c : Chip) → c.cs ≡ true → run (pulse false) c ≡ tick false c
unfolding ticks
run-pulse c on = run-pulses (false ∷ []) c on ∙ rw append-nil

read_loop-suc :
    (n : ℕ) (c c' : Chip) (calls : List Call)
    → run (pulse false) c ≡ (c', calls)
    → read_loop (suc n) c
      ≡ (c.data_out ∷ (read_loop n c').0, (read_loop n c').1, calls ++ (read_loop n c').2)
unfolding read_loop
read_loop-suc n c c' calls e = rw e

read_loop-zero : (c : Chip) → read_loop 0 c ≡ ([], c, [])
unfolding read_loop
read_loop-zero c = refl

-- A data edge puts the next bit on the line; the seventeenth ends the read.
data_tick :
    (c : Chip) (left : ℕ)
    → c.phase ≡ read_word_out
    → c.read_bit_idx + suc left ≡ 16
    → tick false c ≡ (
      record c {
        read_bit_idx = c.read_bit_idx + 1;
        data_out = is_odd (read_word_le c.mem c.word_addr / 2 ^ left);
        prev_sk = false;
      },
      [],
    )
unfolding tick rising_edge read_bit
data_tick c left p n = ground arith

end_tick :
    (c : Chip)
    → c.phase ≡ read_word_out
    → c.read_bit_idx ≡ 16
    → tick false c ≡ (
      record c { phase = wait_start; data_out = true; read_bit_idx = 17; prev_sk = false },
      trace read c.word_addr (read_word_le c.mem c.word_addr) ∷ [],
    )
unfolding tick rising_edge read_bit
end_tick c p n = ground arith

-- The samples of the host with `left` bits still to come.
read_rest :
    (left : ℕ) (c : Chip)
    → c.cs ≡ true
    → c.phase ≡ read_word_out
    → c.read_bit_idx + left ≡ 16
    → let w = read_word_le c.mem c.word_addr in
      read_loop (suc left) c ≡ (
        c.data_out ∷ top_bits left w,
        record c { phase = wait_start; data_out = true; read_bit_idx = 17; prev_sk = false },
        trace read c.word_addr w ∷ [],
      )
unfolding top_bits
read_rest zero c on p n =
    let c1 = record c { phase = wait_start; data_out = true; read_bit_idx = 17; prev_sk = false } in
    let calls = trace read c.word_addr (read_word_le c.mem c.word_addr) ∷ [] in
    read_loop-suc 0 c c1 calls (run-pulse c on ∙ end_tick c p (omega arith))
    ∙ rw (read_loop-zero c1)
read_rest (suc left) c on p n =
    let w = read_word_le c.mem c.word_addr in
    let c1 = record c {
      read_bit_idx = c.read_bit_idx + 1;
      data_out = is_odd (w / 2 ^ left);
      prev_sk = false;
    } in
    read_loop-suc (suc left) c c1 [] (run-pulse c on ∙ data_tick c left p n)
    ∙ rw (read_rest left c1 on p (omega arith))

-- A read command and the host's seventeen samples: a dummy bit and then the addressed word, its
-- highest bit first. The array is unchanged, the read is reported once, and the chip waits for the
-- next command.
pub word_read :
    (a : ℕ) (x : Bool) (c : Chip)
    → a < 256
    → IsReady c
    → let c' = (run (pulses (command (0x200 + a) x)) c).0 in
      let w = read_word_le c.mem a in
      ((read_loop 17 c').0 ≡ true ∷ bits 16 w)
      × ((read_loop 17 c').2 ≡ trace read a w ∷ [])
      × ((read_loop 17 c').1.mem ≡ c.mem)
      × IsReady (read_loop 17 c').1
word_read a x c small r =
    let c1 = record (loaded (0x200 + a) x c) {
      word_addr = a;
      phase = read_word_out;
      read_bit_idx = 0;
      data_out = true;
      prev_sk = false;
    } in
    ground (
      arith,
      run-pulses (command (0x200 + a) x) c,
      ticks-command (0x200 + a) x c,
      execute_read a (loaded (0x200 + a) x c),
      read_rest 16 c1,
      top_bits-bits 16 (read_word_le c.mem a),
    )

-- Reading any word of the array after a word was written.
pub read-write_word_le :
    (mem : List ℕ) (a b d : ℕ)
    → length mem ≡ capacity_bytes
    → a < 256
    → b < 256
    → d < 2 ^ 16
    → read_word_le (write_word_le mem a d) b ≡ (if a == b then d else read_word_le mem b)
unfolding read_word_le write_word_le
read-write_word_le mem a b d size ha hb hd = ground (
  arith,
  length-set mem (a * 2) (d / 2 ^ 8 % 256),
  get_or-set_self mem (a * 2) (d / 2 ^ 8 % 256) 0,
  get_or-set_self (set mem (a * 2) (d / 2 ^ 8 % 256)) (a * 2 + 1) (d % 256) 0,
  get_or-set_ne (set mem (a * 2) (d / 2 ^ 8 % 256)) (a * 2 + 1) (b * 2) (d % 256) 0,
  get_or-set_ne (set mem (a * 2) (d / 2 ^ 8 % 256)) (a * 2 + 1) (b * 2 + 1) (d % 256) 0,
  get_or-set_ne mem (a * 2) (b * 2) (d / 2 ^ 8 % 256) 0,
  get_or-set_ne mem (a * 2) (b * 2 + 1) (d / 2 ^ 8 % 256) 0,
  bit_or_high_field 8 (d / 256) (d % 256),
)

-- On the wire: with writes enabled, what is written to word `a` is what a later read of word `b`
-- samples if `b` is `a`, and a read of any other word samples what was there before.
pub write_then_read :
    (a b d : ℕ) (x y : Bool) (c : Chip)
    → a < 256
    → b < 256
    → d < 2 ^ 16
    → IsReady c
    → length c.mem ≡ capacity_bytes
    → c.write_enabled ≡ true
    → let c1 = (run (pulses (command (0x100 + a) x ++ bits 16 d)) c).0 in
      let c2 = (run (pulses (command (0x200 + b) y)) c1).0 in
      (read_loop 17 c2).0 ≡ true ∷ bits 16 (if a == b then d else read_word_le c.mem b)
write_then_read a b d x y c ha hb hd r size on =
    let c1 = (run (pulses (command (0x100 + a) x ++ bits 16 d)) c).0 in
    let (stored, _, _, ready) = word_write a d x c ha hd r in
    let mem' : c1.mem ≡ write_word_le c.mem a d = stored ∙ rw on in
    (word_read b y c1 hb ready).0
    ∙ ap (λ (w : ℕ). true ∷ bits 16 w)
        (ap (λ (m : List ℕ). read_word_le m b) mem' ∙ read-write_word_le c.mem a b d size ha hb hd)
