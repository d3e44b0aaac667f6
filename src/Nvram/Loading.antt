-- ===== src/Nvram/Loading.antt =====
-- The checksum of an envelope that is loaded.
use coin_line_emu.Base.{
  ℕ, ◌+◌, ◌%◌, u8, u32, ◌≡◌, refl, true, false, not, ◌&&◌, ◌||◌, Option, none, some, List, [], ◌∷◌,
  arith, ◌==◌, if◌then◌else◌, eq_self, replicate, length, leb, Bool,
}
use coin_line_emu.Base.Text.{is_empty, bytes, text_eq, ◌>>=◌}
use coin_line_emu.Nvram.{
  Nvram, Layout, missing_checksum, missing_checksum, compute_sum8, sum_from, seed_defaults,
  recover_default_cleared,
}
use coin_line_emu.Nvram.Base64.{base64_decode}
use coin_line_emu.Nvram.Envelope.{
  load_envelope_json, load_fields, load_data, load_bytes, check_algorithm, resize, Loaded,
  compare_sum8, parse_json_uint, parse_hex_u8,
}
use coin_line_emu.Card.Fixture.{parse_json_string, or_else}

-- The sum of the bytes.
abbrev pub sum : List ℕ → ℕ
sum [] = 0
sum (b ∷ bs) = b + sum bs

sum_from-sum : (s : ℕ) (bs : List ℕ) → u8 (sum_from s bs) ≡ (s + sum bs) % 256
unfolding sum_from
sum_from-sum s [] = omega arith
sum_from-sum s (b ∷ bs) = omega (arith, sum_from-sum (u32 (s + b)) bs)

compute_sum8-sum : (bs : List ℕ) → compute_sum8 bs ≡ sum bs % 256
unfolding compute_sum8
compute_sum8-sum bs = omega (arith, sum_from-sum 0 bs)

-- The checksum that an envelope names is not the sum, modulo 256, of the bytes that it carries, cut or
-- filled up to its size.
abbrev pub differ : ℕ → Option ℕ → Option (List ℕ) → Bool
differ size (some named) (some carried) = not (sum (resize size carried) % 256 == named)
differ size _ _ = false

-- The envelope is of the layout's size and compares a checksum, which is wrong.
abbrev pub is_wrong : Layout → List ℕ → Bool
is_wrong layout json =
    let size = or_else (parse_json_uint json "size") 0 in
    let algo = or_else (parse_json_string json "checksum_algorithm") (bytes "sum8") in
    let payload = or_else (parse_json_string json "data_b64") [] in
    let named = parse_json_string json "checksum_value" >>= parse_hex_u8 in
    not (size == 0)
    && (layout.nvram_size == 0 || size == layout.nvram_size)
    && text_eq algo (bytes "sum8")
    && not (is_empty payload)
    && differ size named (base64_decode payload)

-- An envelope that is in use names the sum of the bytes.
abbrev pub Sealed : Nvram → Type 0
Sealed m = not m.use_sum8_envelope || m.envelope_sum8 == compute_sum8 m.nvram ≡ true

check-Sealed :
    (algo checksum : List ℕ) (m : Nvram)
    → m.use_sum8_envelope ≡ false
    → Sealed (check_algorithm algo checksum m).0
unfolding check_algorithm
check-Sealed algo checksum m h = ground (arith, h)

load_bytes-Sealed :
    (size : ℕ) (algo checksum : List ℕ) (read : Option (List ℕ)) (m : Nvram)
    → m.use_sum8_envelope ≡ false
    → Sealed (load_bytes size algo checksum read m).0
unfolding load_bytes
load_bytes-Sealed size algo checksum none m h = ground (arith, h)
load_bytes-Sealed size algo checksum (some bs) m h =
    check-Sealed algo checksum (record m { nvram = resize size bs }) h

pub recover-Sealed : (m : Nvram) → Sealed (recover_default_cleared m)
unfolding recover_default_cleared
recover-Sealed m =
    let n = length m.nvram in
    let cleared : List ℕ = replicate n 0 in
    ground (arith, eq_self (compute_sum8 (if leb 42 n then seed_defaults cleared else cleared)))

load_data-Sealed :
    (size : ℕ) (algo checksum payload : List ℕ) (m : Nvram)
    → m.use_sum8_envelope ≡ false
    → Sealed (load_data size algo checksum payload m).0
unfolding load_data
load_data-Sealed size algo checksum payload m0 h =
    let m = record m0 { nvram = replicate size 0 } in
    ground
      (arith, recover-Sealed m, load_bytes-Sealed size algo checksum (base64_decode payload) m h)

pub load-Sealed : (json : List ℕ) (m : Nvram) → Sealed (load_envelope_json json m).0
unfolding load_envelope_json load_fields
load-Sealed json m = grind (arith, load_data-Sealed)

differ_none : (size : ℕ) (named : Option ℕ) → differ size named none ≡ false
differ_none size none = refl
differ_none size (some n) = refl

-- No text is both names.
sum8_not_none : (t : List ℕ) → text_eq t (bytes "sum8") ≡ true → text_eq t (bytes "none") ≡ false
unfolding bytes text_eq
sum8_not_none [] e = ground (arith, e)
sum8_not_none (c ∷ cs) e = ground (arith, e)

compare-failed :
    (size : ℕ) (named : Option ℕ) (bs : List ℕ) (m : Nvram)
    → m.checksum_failed ≡ false
    → (compare_sum8 named (record m { nvram = resize size bs })).0.checksum_failed
      ≡ differ size named (some bs)
compare-failed size none bs m h = h
compare-failed size (some expected) bs m h = ground (arith, h, compute_sum8-sum (resize size bs))

load_bytes-failed :
    (size : ℕ) (algo checksum : List ℕ) (read : Option (List ℕ)) (m : Nvram)
    → m.checksum_failed ≡ false
    → (load_bytes size algo checksum read m).0.checksum_failed
      ≡ (text_eq algo (bytes "sum8") && differ size (parse_hex_u8 checksum) read)
unfolding load_bytes check_algorithm
load_bytes-failed size algo checksum none m h =
    ground (arith, h, differ_none size (parse_hex_u8 checksum))
load_bytes-failed size algo checksum (some bs) m h =
    ground (arith, h, sum8_not_none algo, compare-failed size (parse_hex_u8 checksum) bs m h)

load_data-failed :
    (size : ℕ) (algo checksum payload : List ℕ) (m : Nvram)
    → m.checksum_failed ≡ false
    → (load_data size algo checksum payload m).0.checksum_failed ≡ (
        text_eq algo (bytes "sum8")
        && not (is_empty payload)
        && differ size (parse_hex_u8 checksum) (base64_decode payload))
unfolding load_data recover_default_cleared
load_data-failed size algo checksum payload m0 h =
    let m = record m0 { nvram = replicate size 0 } in
    ground (arith, load_bytes-failed size algo checksum (base64_decode payload) m h)

load_fields-failed :
    (size : ℕ) (json : List ℕ) (m : Nvram)
    → m.checksum_failed ≡ false
    → (load_fields size json m).0.checksum_failed ≡ (
        text_eq
          (or_else (parse_json_string json "checksum_algorithm") (bytes "sum8"))
          (bytes "sum8")
        && not (is_empty (or_else (parse_json_string json "data_b64") []))
        && differ size
            (parse_json_string json "checksum_value" >>= parse_hex_u8)
            (base64_decode (or_else (parse_json_string json "data_b64") [])))
unfolding load_fields
load_fields-failed size json m h =
    let algo = or_else (parse_json_string json "checksum_algorithm") (bytes "sum8") in
    let payload = or_else (parse_json_string json "data_b64") [] in
    from algo payload (parse_json_string json "checksum_value")
  where
    from :
        (algo payload : List ℕ) (value : Option (List ℕ))
        → (elim value as (λ _. Loaded) [
          | none ↦ (m, false, some missing_checksum)
          | some checksum ↦ load_data size algo checksum payload m
        ]).0.checksum_failed
          ≡ (text_eq algo (bytes "sum8")
              && not (is_empty payload)
              && differ size (value >>= parse_hex_u8) (base64_decode payload))
    from algo payload none = ground (arith, h)
    from algo payload (some checksum) = load_data-failed size algo checksum payload m h

pub load-failed :
    (json : List ℕ) (m : Nvram)
    → (load_envelope_json json m).0.checksum_failed ≡ is_wrong m.layout json
unfolding load_envelope_json
load-failed json m0 =
    let m = record m0 { checksum_failed = false; use_sum8_envelope = false } in
    ground (arith, load_fields-failed (or_else (parse_json_uint json "size") 0) json m refl)
