-- ===== src/Nvram/State.antt =====
-- The saved state: writing it and reading it back.
use coin_line_emu.Base.Bits.{bit_or_low_field}
use coin_line_emu.Base.{
  ℕ, zero, suc, ◌+◌, ◌*◌, ◌/◌, ◌%◌, ◌^◌, ◌<◌, ◌≡◌, refl, ◌∙◌, ap, Bool, true, false, not, ◌&&◌,
  ◌||◌, Option, none, some, List, [], ◌∷◌, ◌++◌, arith, bit_or, length, length-append, get_or, take,
  drop, ltb, ◌==◌, if◌then◌else◌, u32,
}
use coin_line_emu.Base.Text.{text_eq}
use coin_line_emu.Nvram.{
  Layout, Nvram, NvramError, blob_too_small, blob_bad_magic, blob_bad_header, blob_size_mismatch,
  nvram_size_differs, table_size_differs, dla_size_differs, seal,
}

-- `k_magic_bytes`
abbrev pub magic_bytes : List ℕ
magic_bytes = 67 ∷ 76 ∷ 78 ∷ 86 ∷ 48 ∷ 49 ∷ []

-- `push_u32`
unfoldable pub u32_bytes : ℕ → List ℕ
u32_bytes v = v % 256 ∷ v / 256 % 256 ∷ v / 65536 % 256 ∷ v / 16777216 % 256 ∷ []

unfoldable pub serialize_state : Nvram → List ℕ
serialize_state m =
    magic_bytes
    ++ (u32_bytes 1
        ++ (u32_bytes (u32 (length m.nvram))
            ++ (u32_bytes (u32 (length m.table))
                ++ (u32_bytes (u32 (length m.dla)) ++ (m.nvram ++ (m.table ++ m.dla))))))

-- `read_u32` at `o`; the size of the blob has been compared before.
unfoldable pub read_u32 : List ℕ → ℕ → ℕ
read_u32 blob o =
    bit_or
      (bit_or (bit_or (get_or blob o 0) (get_or blob (o + 1) 0 * 2 ^ 8))
        (get_or blob (o + 2) 0 * 2 ^ 16))
      (get_or blob (o + 3) 0 * 2 ^ 24)

-- A size that the board's profile fixes.
abbrev pub differs : ℕ → List ℕ → Bool
differs size bytes = not (size == 0) && not (length bytes == size)

-- The steps behind the checks of the header: the stores are replaced first and compared then.
unfoldable pub restore : List ℕ → ℕ → ℕ → ℕ → Nvram → Nvram × Option NvramError
restore body nv tb dl m0 =
    let m = record m0 {
      nvram = take nv body;
      table = take tb (drop nv body);
      dla = take dl (drop (nv + tb) body);
    } in
    if differs m.layout.nvram_size m.nvram
    then (m, some nvram_size_differs)
    else if differs m.layout.table_storage_size m.table
    then (m, some table_size_differs)
    else if differs m.layout.dla_stage_size m.dla
    then (m, some dla_size_differs)
    else (seal (record m { checksum_failed = false }), none)

unfoldable pub deserialize_state : List ℕ → Nvram → Nvram × Option NvramError
deserialize_state blob m =
    let nv = read_u32 blob 10 in
    let tb = read_u32 blob 14 in
    let dl = read_u32 blob 18 in
    if ltb (length blob) (6 + 16)
    then (m, some blob_too_small)
    else if not (text_eq (take 6 blob) magic_bytes)
    then (m, some blob_bad_magic)
    else if not (read_u32 blob 6 == 1)
    then (m, some blob_bad_header)
    else if not (22 + nv + tb + dl == length blob)
    then (m, some blob_size_mismatch)
    else restore (drop 22 blob) nv tb dl m

-- Four bytes stand for the number that they were written for.
u32_bytes_join :
    (v : ℕ)
    → v < 4294967296
    → bit_or
        (bit_or (bit_or (v % 256) (v / 256 % 256 * 2 ^ 8)) (v / 65536 % 256 * 2 ^ 16))
        (v / 16777216 % 256 * 2 ^ 24)
      ≡ v
u32_bytes_join v h =
    let first : bit_or (v % 256) (v / 256 % 256 * 2 ^ 8) ≡ v % 65536 =
      bit_or_low_field 8 (v / 256 % 256) (v % 256) (omega arith) ∙ omega arith in
    let second : bit_or (v % 65536) (v / 65536 % 256 * 2 ^ 16) ≡ v % 16777216 =
      bit_or_low_field 16 (v / 65536 % 256) (v % 65536) (omega arith) ∙ omega arith in
    let third : bit_or (v % 16777216) (v / 16777216 % 256 * 2 ^ 24) ≡ v =
      bit_or_low_field 24 (v / 16777216 % 256) (v % 16777216) (omega arith) ∙ omega (arith, h) in
    ap (λ (t : ℕ). bit_or (bit_or t (v / 65536 % 256 * 2 ^ 16)) (v / 16777216 % 256 * 2 ^ 24)) first
    ∙ (ap (λ (t : ℕ). bit_or t (v / 16777216 % 256 * 2 ^ 24)) second ∙ third)

take-append : (xs ys : List ℕ) (n : ℕ) → n ≡ length xs → take n (xs ++ ys) ≡ xs
take-append [] ys zero e = refl
take-append [] ys (suc n) e = absurd (omega (arith, e))
take-append (x ∷ xs) ys zero e = absurd (omega (arith, e))
take-append (x ∷ xs) ys (suc n) e =
    ap (λ (t : List ℕ). x ∷ t) (take-append xs ys n (omega (arith, e)))

drop-append : (xs ys : List ℕ) (n m : ℕ) → n ≡ length xs + m → drop n (xs ++ ys) ≡ drop m ys
drop-append [] ys n m e = ap (λ (k : ℕ). drop k ys) (omega (arith, e))
drop-append (x ∷ xs) ys zero m e = absurd (omega (arith, e))
drop-append (x ∷ xs) ys (suc n) m e = drop-append xs ys n m (omega (arith, e))

take_all : (xs : List ℕ) (n : ℕ) → n ≡ length xs → take n xs ≡ xs
take_all [] zero e = refl
take_all [] (suc n) e = absurd (omega (arith, e))
take_all (x ∷ xs) zero e = absurd (omega (arith, e))
take_all (x ∷ xs) (suc n) e = ap (λ (t : List ℕ). x ∷ t) (take_all xs n (omega (arith, e)))

-- A state that the blob's sizes can hold.
abbrev pub IsStorable : Nvram → Type 0
IsStorable m =
    (length m.nvram < 4294967296) × (length m.table < 4294967296) × (length m.dla < 4294967296)

-- A size of the profile that is absent, or is that of the store.
abbrev pub fits : ℕ → List ℕ → Bool
fits size bytes = size == 0 || length bytes == size

abbrev pub Fits : Layout → Nvram → Type 0
Fits layout m =
    (fits layout.nvram_size m.nvram ≡ true)
    × (fits layout.table_storage_size m.table ≡ true)
    × (fits layout.dla_stage_size m.dla ≡ true)

restore-parts :
    (xs ys zs : List ℕ) (m : Nvram)
    → (fits m.layout.nvram_size xs ≡ true)
    → (fits m.layout.table_storage_size ys ≡ true)
    → (fits m.layout.dla_stage_size zs ≡ true)
    → restore (xs ++ (ys ++ zs)) (length xs) (length ys) (length zs) m
      ≡ (seal (record m { nvram = xs; table = ys; dla = zs; checksum_failed = false }), none)
unfolding restore
restore-parts xs ys zs m fx fy fz =
    let nx = length xs in
    let ny = length ys in
    let nz = length zs in
    let first = take-append xs (ys ++ zs) nx refl in
    let second : take ny (drop nx (xs ++ (ys ++ zs))) ≡ ys =
      ap (λ (t : List ℕ). take ny t) (drop-append xs (ys ++ zs) nx 0 (omega arith))
      ∙ take-append ys zs ny refl in
    let third : take nz (drop (nx + ny) (xs ++ (ys ++ zs))) ≡ zs =
      ap (λ (t : List ℕ). take nz t)
        (drop-append xs (ys ++ zs) (nx + ny) ny refl ∙ drop-append ys zs ny 0 (omega arith))
      ∙ take_all zs nz refl in
    ground (arith, first, second, third, fx, fy, fz)

-- A saved state is read back by a machine whose profile has the same sizes, or none: the three
-- stores are those that were saved, and the checksum is that of the store.
pub deserialize_state-serialize_state :
    (m saved : Nvram)
    → IsStorable saved
    → Fits m.layout saved
    → deserialize_state (serialize_state saved) m ≡ (
      seal (record m {
        nvram = saved.nvram;
        table = saved.table;
        dla = saved.dla;
        checksum_failed = false;
      }),
      none,
    )
unfolding deserialize_state serialize_state read_u32 u32_bytes text_eq
deserialize_state-serialize_state m saved h f =
    let nn = length saved.nvram in
    let nt = length saved.table in
    let nd = length saved.dla in
    let read_n : read_u32 (serialize_state saved) 10 ≡ nn =
      u32_bytes_join (u32 nn) (omega arith) ∙ omega (arith, h.0) in
    let read_t : read_u32 (serialize_state saved) 14 ≡ nt =
      u32_bytes_join (u32 nt) (omega arith) ∙ omega (arith, h.1) in
    let read_d : read_u32 (serialize_state saved) 18 ≡ nd =
      u32_bytes_join (u32 nd) (omega arith) ∙ omega (arith, h.2) in
    let count : length (saved.nvram ++ (saved.table ++ saved.dla)) ≡ nn + nt + nd = omega (
      arith,
      length-append saved.nvram (saved.table ++ saved.dla),
      length-append saved.table saved.dla,
    ) in
    let parts = restore-parts saved.nvram saved.table saved.dla m f.0 f.1 f.2 in
    ground (arith, read_n, read_t, read_d, count, parts)
