-- ===== src/Card/Swipe.antt =====
-- The bits of a swipe against the cycle counter, and the bit time of 0.
use native.Mathlib.Nat.{one-le-pow, div-eq_of_lt-le, add-mul, suc-mul}
use coin_line_emu.Base.{
  ℕ, zero, suc, ◌+◌, ◌-◌, ◌*◌, ◌/◌, ◌%◌, ◌^◌, ◌<◌, ◌≤◌, ◌≡◌, refl, ◌∙◌, ap, true, false, not, ◌&&◌,
  none, List, [], ◌∷◌, ◌++◌, ◌↔◌, arith, ltb, if◌then◌else◌, length, get_or, length-append,
}
use coin_line_emu.Base.Text.{is_empty}
use coin_line_emu.Card.{
  Card, byte_bits, track_bits, rebuild_bits_from_track, arm_swipe, cycles_per_bit, checked_index,
  status_bits, data_byte,
}

length-byte_bits : (uc b left : ℕ) → length (byte_bits uc b left) ≡ left
unfolding byte_bits
length-byte_bits uc b zero = refl
length-byte_bits uc b (suc left) = omega (arith, length-byte_bits uc (b + 1) left)

get_or-byte_bits :
    (uc b left i : ℕ) → i < left → get_or (byte_bits uc b left) i 0 ≡ uc / 2 ^ (b + i) % 2
unfolding byte_bits
get_or-byte_bits uc b zero i h = absurd (omega arith)
get_or-byte_bits uc b (suc left) zero h =
    let at : b ≡ b + 0 = omega arith in ap (λ (j : ℕ). uc / 2 ^ j % 2) at
get_or-byte_bits uc b (suc left) (suc i) h =
    let at : b + 1 + i ≡ b + suc i = omega arith in
    get_or-byte_bits uc (b + 1) left i (omega arith) ∙ ap (λ (j : ℕ). uc / 2 ^ j % 2) at

get_or-append_left :
    (xs ys : List ℕ) (i d : ℕ) → i < length xs → get_or (xs ++ ys) i d ≡ get_or xs i d
get_or-append_left [] ys i d h = absurd (omega arith)
get_or-append_left (x ∷ xs) ys zero d h = refl
get_or-append_left (x ∷ xs) ys (suc i) d h = get_or-append_left xs ys i d (omega arith)

get_or-append_right :
    (xs ys : List ℕ) (i j d : ℕ) → j ≡ length xs + i → get_or (xs ++ ys) j d ≡ get_or ys i d
get_or-append_right [] ys i j d e =
    let at : j ≡ i = omega (arith, e) in ap (λ (k : ℕ). get_or ys k d) at
get_or-append_right (x ∷ xs) ys i zero d e = absurd (omega arith)
get_or-append_right (x ∷ xs) ys i (suc j) d e = get_or-append_right xs ys i j d (omega arith)

-- Bit `b` of byte `i` stands at index `8 * i + b`.
get_or-track_bits :
    (track : List ℕ) (i b j : ℕ)
    → b < 8
    → j ≡ 8 * i + b
    → get_or (track_bits track) j 0 ≡ get_or track i 0 / 2 ^ b % 2
unfolding track_bits
get_or-track_bits [] i b j h e = ground (arith, one-le-pow b 2)
get_or-track_bits (uc ∷ ucs) zero b j h e =
    let at : 0 + j ≡ b = omega (arith, e) in
    let front =
      get_or-append_left (byte_bits uc 0 8) (track_bits ucs) j 0
        (omega (arith, length-byte_bits uc 0 8)) in
    front ∙ (get_or-byte_bits uc 0 8 j (omega arith) ∙ ap (λ (k : ℕ). uc / 2 ^ k % 2) at)
get_or-track_bits (uc ∷ ucs) (suc i) b j h e =
    get_or-append_right (byte_bits uc 0 8) (track_bits ucs) (8 * i + b) j 0
      (omega (arith, length-byte_bits uc 0 8))
    ∙ get_or-track_bits ucs i b (8 * i + b) h refl

length-track_bits : (track : List ℕ) → length (track_bits track) ≡ 8 * length track
unfolding track_bits
length-track_bits [] = refl
length-track_bits (uc ∷ ucs) = omega (
  arith,
  length-append (byte_bits uc 0 8) (track_bits ucs),
  length-byte_bits uc 0 8,
  length-track_bits ucs,
)

-- The index of the bit whose time a cycle lies in.
index_in :
    (n cpb start cycle : ℕ)
    → start + n * cpb ≤ cycle
    → cycle < start + (n + 1) * cpb
    → (if ltb start cycle then (cycle - start) / cpb else 0) ≡ n
index_in zero cpb start cycle from to =
    let width : 1 * cpb ≡ cpb = omega arith in
    let at = div-eq_of_lt-le {k = 0} cpb {m = cycle - start} in
    let first : (cycle - start) / cpb ≡ 0 = at (omega arith) (omega (arith, width)) in
    ground (arith, first)
index_in (suc n) cpb start cycle from to =
    let spread : (suc n + 1) * cpb ≡ suc n * cpb + cpb = omega (arith, add-mul (suc n) 1 cpb) in
    let more : suc n * cpb ≡ cpb + n * cpb = omega (arith, suc-mul n cpb) in
    let at : (cycle - start) / cpb ≡ suc n =
      div-eq_of_lt-le {k = suc n} cpb {m = cycle - start} (omega (arith, from))
        (omega (arith, to)) in
    ground (arith, at, spread, more, from, to)

nonempty_of : (xs : List ℕ) → 0 < length xs → is_empty xs ≡ false
nonempty_of [] h = absurd (omega arith)
nonempty_of (x ∷ xs) h = refl

abbrev BitsLoaded : Card → Type 0
BitsLoaded m = m.bits ≡ track_bits m.fix.payload_track_ascii

data_byte_at :
    (m : Card) (i b cycle : ℕ)
    → m.armed ≡ true
    → BitsLoaded m
    → b < 8
    → i < length m.fix.payload_track_ascii
    → m.swipe_start_cycle + (8 * i + b) * cycles_per_bit m.cpu_hz_arm m ≤ cycle
    → cycle < m.swipe_start_cycle + (8 * i + b + 1) * cycles_per_bit m.cpu_hz_arm m
    → data_byte cycle m ≡ get_or m.fix.payload_track_ascii i 0 / 2 ^ b % 2
unfolding data_byte
data_byte_at m i b cycle armed loaded hb hi from to =
    let cpb = cycles_per_bit m.cpu_hz_arm m in
    let n = 8 * i + b in
    let spread : (n + 1) * cpb ≡ n * cpb + cpb = omega (arith, add-mul n 1 cpb) in
    let at = index_in n cpb m.swipe_start_cycle cycle from to in
    let value = get_or-track_bits m.fix.payload_track_ascii i b n hb refl in
    let stored = ap (λ (bs : List ℕ). get_or bs n 0) loaded in
    let count = ap (λ (bs : List ℕ). length bs) loaded in
    let amount = length-track_bits m.fix.payload_track_ascii in
    let some_bits = nonempty_of m.bits (omega (arith, count, amount)) in
    ground (arith, armed, some_bits, spread, at, value, stored, count, amount)

-- While a swipe is armed, in each of the cycles of a bit's time the data line carries bit `b` of
-- byte `i` of the track, the lowest bit first.
pub data_byte-track :
    (m0 : Card) (start hz i b cycle : ℕ)
    → let m = arm_swipe start hz (rebuild_bits_from_track m0) in
      let cpb = cycles_per_bit m.cpu_hz_arm m in
      b < 8
      → i < length m.fix.payload_track_ascii
      → start + (8 * i + b) * cpb ≤ cycle
      → cycle < start + (8 * i + b + 1) * cpb
      → data_byte cycle m ≡ get_or m.fix.payload_track_ascii i 0 / 2 ^ b % 2
unfolding arm_swipe rebuild_bits_from_track
data_byte-track m0 start hz i b cycle hb hi from to =
    data_byte_at (arm_swipe start hz (rebuild_bits_from_track m0)) i b cycle refl refl hb hi from to

-- The status divides by 0 exactly if a swipe is armed, the clock is slower than the bit rate and
-- the swipe has started.
pub status_bits-none :
    (cycle : ℕ) (m : Card)
    → (status_bits cycle m ≡ none) ↔ (
        (m.armed && not (is_empty m.bits) ≡ true)
        × (cycles_per_bit m.cpu_hz_arm m ≡ 0)
        × (m.swipe_start_cycle < cycle))
unfolding status_bits checked_index
status_bits-none cycle m = (λ h. ground (arith, h), λ h. ground (arith, h.0, h.1, h.2))
