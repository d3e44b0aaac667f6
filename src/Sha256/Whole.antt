-- ===== src/Sha256/Whole.antt =====
-- The hash of a message that was updated and finished against the hash of the padded message.
use coin_line_emu.Base.{
  ℕ, zero, suc, ◌+◌, ◌-◌, ◌*◌, ◌%◌, ◌<◌, ◌≤◌, ◌≡◌, ◌∙◌, ap, sym, refl, inl, inr, true, false, List,
  [], ◌∷◌, ◌++◌, arith, ltb, ltb→lt, ◌==◌, length, set, replicate, length-append, length-replicate,
  u64, if_cases, Bool-cases,
}
use coin_line_emu.Sha256.{
  Hash, compress, transform, copy_at, flush, update, padded_state, last_block, finish, length_bytes,
  digest, reset,
}
use coin_line_emu.Sha256.Reference.{pad_zeros, padding, block_count, reference_hash}
use coin_line_emu.Sha256.Padding.{push, push_all, push_all-append, update_loop-push_all}
use coin_line_emu.Sha256.Blocks.{copy_at-append, fill-compress, push_all-blocks}

abbrev zeros : ℕ → List ℕ
zeros n = replicate n 0

-- The bytes of a block that is finished in one go.
padded_state-short :
    (s : Hash)
    → s.buflen < 56
    → (padded_state s).h
      ≡ (push_all (0x80 ∷ (zeros (55 - s.buflen) ++ length_bytes (u64 (s.total_len * 8)))) s).h
unfolding padded_state last_block transform copy_at
padded_state-short s short =
    let tail = length_bytes (u64 (s.total_len * 8)) in
    let fill = zeros (55 - s.buflen) in
    let bytes = 0x80 ∷ (fill ++ tail) in
    let size = length-append fill tail in
    let width = length-replicate {A = ℕ} (55 - s.buflen) 0 in
    let filled = fill-compress bytes s (omega arith) (omega (arith, size, width, short)) in
    let one : ltb 56 (s.buflen + 1) ≡ false = ground (arith, short) in
    let count : 56 - (s.buflen + 1) ≡ 55 - s.buflen = omega arith in
    let place : s.buflen + 1 + length fill ≡ 56 = omega (arith, width, short) in
    let marked = set s.buf s.buflen 0x80 in
    let split =
      copy_at-append marked (s.buflen + 1) fill tail
      ∙ ap (λ (n : ℕ). copy_at (copy_at marked (s.buflen + 1) fill) n tail) place in
    let grown = ap (λ (n : ℕ). copy_at (copy_at marked (s.buflen + 1) (zeros n)) 56 tail) count in
    rw one (
      ap (λ (b : List ℕ). compress s.h b) (grown ∙ sym split) ∙ sym (ap (λ (t : Hash). t.h) filled))

-- The bytes of two blocks.
padded_state-long :
    (s : Hash)
    → 56 ≤ s.buflen
    → s.buflen < 64
    → (padded_state s).h
      ≡ (push_all
          ((0x80 ∷ zeros (63 - s.buflen)) ++ (zeros 56 ++ length_bytes (u64 (s.total_len * 8))))
          s).h
unfolding padded_state last_block transform copy_at
padded_state-long s long short =
    let tail = length_bytes (u64 (s.total_len * 8)) in
    let front = 0x80 ∷ zeros (63 - s.buflen) in
    let back = zeros 56 ++ tail in
    let width = length-replicate {A = ℕ} (63 - s.buflen) 0 in
    let first = fill-compress front s (omega arith) (omega (arith, width, short)) in
    let marked = set s.buf s.buflen 0x80 in
    let filled = copy_at marked (s.buflen + 1) (zeros (63 - s.buflen)) in
    let next : Hash = record s { h = compress s.h filled; buf = filled; buflen = 0 } in
    let second = fill-compress back next (omega arith) refl in
    let two : ltb 56 (s.buflen + 1) ≡ true = ground (arith, long) in
    let count : 64 - (s.buflen + 1) ≡ 63 - s.buflen = omega arith in
    let together =
      push_all-append front back s ∙ (ap (λ (t : Hash). push_all back t) first ∙ second) in
    let blocks_same =
      ap
        (λ (n : ℕ).
          let b = copy_at marked (s.buflen + 1) (zeros n) in
          compress (compress s.h b) (copy_at (copy_at b 0 (zeros 56)) 56 tail))
        count in
    rw two (blocks_same ∙ sym (ap (λ (t : Hash). t.h) together))

zeros-append : (a b : ℕ) (back : List ℕ) → zeros a ++ (zeros b ++ back) ≡ zeros (a + b) ++ back
zeros-append zero b back = ap (λ (n : ℕ). zeros n ++ back) (let z : b ≡ 0 + b = omega arith in z)
zeros-append (suc a) b back =
    ap (λ (t : List ℕ). 0 ∷ t) (zeros-append a b back)
    ∙ ap (λ (n : ℕ). zeros n ++ back) (let z : suc (a + b) ≡ suc a + b = omega arith in z)

push-buflen : (b : ℕ) (s : Hash) → s.buflen < 64 → (push b s).buflen ≡ (s.buflen + 1) % 64
unfolding push flush
push-buflen b s partial =
    if_cases (λ (t : Hash). t.buflen ≡ (s.buflen + 1) % 64) (s.buflen + 1 == 64) _ _
      (λ full. ground (arith, full)) (λ open_block. ground (arith, open_block))

push-total_len : (b : ℕ) (s : Hash) → (push b s).total_len ≡ s.total_len
unfolding push flush transform
push-total_len b s =
    if_cases (λ (t : Hash). t.total_len ≡ s.total_len) (s.buflen + 1 == 64) _ _ (λ _. refl)
      (λ _. refl)

-- How full the block is after some bytes.
pub push_all-buflen :
    (bytes : List ℕ) (s : Hash)
    → s.buflen < 64
    → (push_all bytes s).buflen ≡ (s.buflen + length bytes) % 64
unfolding push_all
push_all-buflen [] s partial = omega arith
push_all-buflen (b ∷ bytes) s partial =
    let first = push-buflen b s partial in
    let rest = push_all-buflen bytes (push b s) (omega (arith, first)) in omega (arith, first, rest)

push_all-total_len : (bytes : List ℕ) (s : Hash) → (push_all bytes s).total_len ≡ s.total_len
unfolding push_all
push_all-total_len [] s = refl
push_all-total_len (b ∷ bytes) s = push_all-total_len bytes (push b s) ∙ push-total_len b s

-- Finishing is writing the padding of as many bytes as the hash counted.
padded_state-padding :
    (n : ℕ) (s : Hash)
    → n < 4294967296
    → s.buflen ≡ n % 64
    → s.total_len ≡ n
    → (padded_state s).h ≡ (push_all (padding n) s).h
unfolding padding
padded_state-padding n s small place counted =
    let bits : u64 (s.total_len * 8) ≡ n * 8 = omega (arith, counted, small) in
    elim (Bool-cases (ltb s.buflen 56)) [
      | inl short ↦
          let z : 55 - s.buflen ≡ pad_zeros n = ground (arith, short, place) in
          padded_state-short s (ltb→lt _ _ short)
          ∙ (ap (λ (k : ℕ). (push_all (0x80 ∷ (zeros (55 - s.buflen) ++ length_bytes k)) s).h) bits
              ∙ ap (λ (k : ℕ). (push_all (0x80 ∷ (zeros k ++ length_bytes (n * 8))) s).h) z)
      | inr long ↦
          let z : 63 - s.buflen + 56 ≡ pad_zeros n = ground (arith, long, place) in
          let joined = zeros-append (63 - s.buflen) 56 (length_bytes (n * 8)) in
          padded_state-long s (ground (arith, long)) (omega (arith, place))
          ∙ (ap
                (λ (k : ℕ).
                  (push_all ((0x80 ∷ zeros (63 - s.buflen)) ++ (zeros 56 ++ length_bytes k)) s).h)
                bits
              ∙ (ap (λ (t : List ℕ). (push_all (0x80 ∷ t) s).h) joined
                  ∙ ap (λ (k : ℕ). (push_all (0x80 ∷ (zeros k ++ length_bytes (n * 8))) s).h) z))
    ]

length-padding : (n : ℕ) → n + length (padding n) ≡ 64 * block_count n
unfolding padding
length-padding n = omega (
  arith,
  length-append (zeros (pad_zeros n)) (length_bytes (n * 8)),
  length-replicate {A = ℕ} (pad_zeros n) 0,
)

-- The digest of a message of fewer than 2 ^ 32 bytes is the hash of the padded message, block by block.
pub finish-update :
    (message : List ℕ)
    → length message < 4294967296
    → (finish (update message reset)).1 ≡ reference_hash message
unfolding finish update reset reference_hash
finish-update message small =
    let n = length message in
    let start : Hash = record reset { total_len = u64 (0 + n) } in
    let filled = push_all message start in
    let updated = update_loop-push_all n message start (omega arith) small (omega arith) in
    let buflen = push_all-buflen message start (omega arith) in
    let total = push_all-total_len message start in
    let padded =
      padded_state-padding n filled small (omega (arith, buflen)) (omega (arith, total, small)) in
    let sizes = length-append message (padding n) in
    let whole =
      push_all-blocks (block_count n) (message ++ padding n) start refl
        (length-replicate {A = ℕ} 64 0) (omega (arith, sizes, length-padding n)) in
    ap (λ (t : Hash). digest (padded_state t).h) updated
    ∙ ap digest (
        padded ∙ (ap (λ (t : Hash). t.h) (sym (push_all-append message (padding n) start)) ∙ whole))
