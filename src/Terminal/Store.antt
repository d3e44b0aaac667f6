-- ===== src/Terminal/Store.antt =====
-- The terminal's EEPROM: `eeprom_model`, with its records under a checksum.
use coin_line_emu.Base.{
  ℕ, zero, suc, ◌+◌, ◌-◌, ◌≤◌, ◌<◌, ◌≡◌, refl, sym, ap, ◌∙◌, Bool, true, false, ◌&&◌, ◌||◌, Option,
  none, some, List, [], ◌∷◌, ◌++◌, arith, bit_xor, length, length-append, length-set, get_or, set,
  take, drop, ltb, ◌==◌, if◌then◌else◌, u8,
}

-- `offset > m_bytes.size() || size > m_bytes.size() - offset`
abbrev pub outside : ℕ → ℕ → List ℕ → Bool
outside offset size bytes = ltb (length bytes) offset || ltb (length bytes - offset) size

unfoldable pub read : ℕ → ℕ → List ℕ → Option (List ℕ)
read offset size bytes =
    if outside offset size bytes then none else some (take size (drop offset bytes))

-- The loop of `write`.
unfoldable pub put : ℕ → List ℕ → List ℕ → List ℕ
put offset [] bytes = bytes
put offset (d ∷ data_bytes) bytes = put (offset + 1) data_bytes (set bytes offset d)

unfoldable pub write : ℕ → List ℕ → List ℕ → Option (List ℕ)
write offset data_bytes bytes =
    if outside offset (length data_bytes) bytes then none else some (put offset data_bytes bytes)

-- The loop of `verify`.
unfoldable pub agrees : ℕ → List ℕ → List ℕ → Bool
agrees offset [] bytes = true
agrees offset (d ∷ data_bytes) bytes =
    get_or bytes offset 0 == d && agrees (offset + 1) data_bytes bytes

unfoldable pub verify : ℕ → List ℕ → List ℕ → Bool
verify offset data_bytes bytes =
    if outside offset (length data_bytes) bytes then false else agrees offset data_bytes bytes

-- The loop over a payload.
unfoldable pub checksum_from : ℕ → List ℕ → ℕ
checksum_from sum [] = sum
checksum_from sum (b ∷ bs) = checksum_from (u8 (bit_xor sum b)) bs

unfoldable pub write_record_with_checksum : ℕ → List ℕ → List ℕ → Option (List ℕ)
write_record_with_checksum offset payload bytes =
    write offset (payload ++ (checksum_from 0 payload ∷ [])) bytes

-- A record read, against its last byte.
abbrev pub checked : ℕ → Option (List ℕ) → Option (List ℕ)
checked payload_size none = none
checked payload_size (some framed) =
    if checksum_from 0 (take payload_size framed) == get_or framed payload_size 0
    then some (take payload_size framed)
    else none

unfoldable pub read_record_with_checksum : ℕ → ℕ → List ℕ → Option (List ℕ)
read_record_with_checksum offset payload_size bytes =
    checked payload_size (read offset (payload_size + 1) bytes)

put_behind :
    (offset : ℕ) (ds : List ℕ) (x : ℕ) (xs : List ℕ)
    → put (suc offset) ds (x ∷ xs) ≡ x ∷ put offset ds xs
unfolding put
put_behind offset [] x xs = refl
put_behind offset (d ∷ ds) x xs =
    let next : suc offset + 1 ≡ suc (offset + 1) = omega arith in
    ap (λ (i : ℕ). put i ds (x ∷ set xs offset d)) next
    ∙ put_behind (offset + 1) ds x (set xs offset d)

-- What is written is read.
take-put :
    (offset : ℕ) (ds bytes : List ℕ)
    → offset + length ds ≤ length bytes
    → take (length ds) (drop offset (put offset ds bytes)) ≡ ds
unfolding put
take-put zero [] bytes h = refl
take-put zero (d ∷ ds) [] h = absurd (omega arith)
take-put zero (d ∷ ds) (x ∷ xs) h =
    let first = put_behind 0 ds d xs in
    let rest = take-put zero ds xs (omega arith) in
    ap (λ (l : List ℕ). take (suc (length ds)) l) first ∙ ap (λ (l : List ℕ). d ∷ l) rest
take-put (suc offset) ds [] h = absurd (omega arith)
take-put (suc offset) ds (x ∷ xs) h =
    ap (λ (l : List ℕ). take (length ds) (drop (suc offset) l)) (put_behind offset ds x xs)
    ∙ take-put offset ds xs (omega arith)

put-length : (offset : ℕ) (ds bytes : List ℕ) → length (put offset ds bytes) ≡ length bytes
unfolding put
put-length offset [] bytes = refl
put-length offset (d ∷ ds) bytes =
    put-length (offset + 1) ds (set bytes offset d) ∙ length-set bytes offset d

take-append_one : (xs : List ℕ) (v : ℕ) → take (length xs) (xs ++ (v ∷ [])) ≡ xs
take-append_one [] v = refl
take-append_one (x ∷ xs) v = ap (λ (l : List ℕ). x ∷ l) (take-append_one xs v)

get_or-append_one : (xs : List ℕ) (v : ℕ) → get_or (xs ++ (v ∷ [])) (length xs) 0 ≡ v
get_or-append_one [] v = refl
get_or-append_one (x ∷ xs) v = get_or-append_one xs v

-- A record that does not fit is refused.
write_record_with_checksum-outside :
    (offset : ℕ) (payload bytes : List ℕ)
    → length bytes < offset + length payload + 1
    → write_record_with_checksum offset payload bytes ≡ none
unfolding write_record_with_checksum write
write_record_with_checksum-outside offset payload bytes h =
    let size = length-append payload (checksum_from 0 payload ∷ []) in ground (arith, size, h)

-- A record that fits behind the offset, with its checksum, is written without changing the size of
-- the store, and is read back at the offset and with its size.
pub read_record-write_record :
    (offset : ℕ) (payload bytes : List ℕ)
    → offset + length payload + 1 ≤ length bytes
    → (b : List ℕ) × (write_record_with_checksum offset payload bytes ≡ some b)
      × (length b ≡ length bytes)
      × (read_record_with_checksum offset (length payload) b ≡ some payload)
unfolding write_record_with_checksum read_record_with_checksum write read
read_record-write_record offset payload bytes fits =
    let sum = checksum_from 0 payload in
    let framed = payload ++ (sum ∷ []) in
    let size : length framed ≡ length payload + 1 =
      omega (arith, length-append payload (sum ∷ [])) in
    let b = put offset framed bytes in
    let kept = put-length offset framed bytes in
    let front = take-append_one payload sum in
    let last = get_or-append_one payload sum in
    let whole = take-put offset framed bytes (omega (arith, size)) in
    let back : take (length payload + 1) (drop offset b) ≡ framed =
      ap (λ (n : ℕ). take n (drop offset b)) (sym size) ∙ whole in
    let inside : outside offset (length payload + 1) b ≡ false = ground (arith, kept, fits) in
    let sums : checksum_from 0 (take (length payload) framed) ≡ sum =
      ap (λ (l : List ℕ). checksum_from 0 l) front in
    (b, ground (arith, size, fits), kept, ground (arith, inside, back, front, last, sums))
