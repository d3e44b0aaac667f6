-- ===== src/Base/Bits.antt =====
-- `bit_or` and `bit_and` at variables, and facts on a small range by evaluation.
use Prim.Native.Nat.{
  ℕ, zero, suc, ◌+◌, ◌*◌, ◌/◌, ◌%◌, ◌^◌, ◌≤◌, ◌<◌, min, max, digits, bit_or, bit_and,
  bit_or-bitwise, bit_and-bitwise,
}
use mathlib.Core.Path.{◌≡◌, refl, sym, ap, ◌∙◌}
use mathlib.Core.Bool.{Bool, true, ◌&&◌, ◌||◌}
use native.Mathlib.Nat.{pow-suc, one-le-pow, div-div-eq-div-mul}
use coin_line_emu.Base.Word.{tests, is_odd}
use native.Mathlib.Omega.{arith}

-- The conjunction of `p 0`, …, `p (n - 1)`.
unfoldable pub all_below : ℕ → (ℕ → Bool) → Bool
all_below zero p = true
all_below (suc n) p = all_below n p && p n

-- A table that holds below `n` holds at each `x` below `n`.
pub all_below_sound : (n : ℕ) (p : ℕ → Bool) (x : ℕ) → all_below n p ≡ true → x < n → p x ≡ true
unfolding all_below
all_below_sound zero p x table below = elim below [ ]
all_below_sound (suc n) p x table below = ground (arith, all_below_sound n p x)

-- The digit recursion that `bit_or` stands for, with more fuel than it needs.
abbrev or_digits : ℕ → ℕ → ℕ → ℕ
or_digits n a b = digits (λ y. y) max n a b

or_digits_spare :
    (x y fuel spare : ℕ) → x ≤ spare → x ≤ fuel → or_digits spare x y ≡ or_digits fuel x y
or_digits_spare zero y zero zero le le' = refl
or_digits_spare zero y zero (suc spare) le le' = refl
or_digits_spare zero y (suc fuel) zero le le' = refl
or_digits_spare zero y (suc fuel) (suc spare) le le' = refl
or_digits_spare (suc x) y zero spare le le' = elim le' [ ]
or_digits_spare (suc x) y (suc fuel) zero le le' = elim le [ ]
or_digits_spare (suc x) y (suc fuel) (suc spare) le le' =
    let high : or_digits spare (suc x / 2) (y / 2) ≡ or_digits fuel (suc x / 2) (y / 2) =
      or_digits_spare (suc x / 2) (y / 2) fuel spare (omega arith) (omega arith) in
    ap (λ (h : ℕ). h * 2 + max (suc x % 2) (y % 2)) high

pub zero-bit_or : (b : ℕ) → bit_or 0 b ≡ b
zero-bit_or b = bit_or-bitwise 0 b

-- The lowest digit of a union, and the rest.
pub bit_or_step : (x y : ℕ) → bit_or x y ≡ bit_or (x / 2) (y / 2) * 2 + max (x % 2) (y % 2)
bit_or_step zero y = omega (arith, zero-bit_or (y / 2), zero-bit_or y)
bit_or_step (suc x) y =
    let half = suc x / 2 in
    let spare = or_digits_spare half (y / 2) half x (omega arith) (omega arith) in
    omega (arith, spare, bit_or-bitwise half (y / 2), bit_or-bitwise (suc x) y)

-- A union with nothing, by induction on a bound of the number.
bit_or-zero_below : (bound x : ℕ) → x ≤ bound → bit_or x 0 ≡ x
bit_or-zero_below zero zero le = refl
bit_or-zero_below zero (suc x) le = elim le [ ]
bit_or-zero_below (suc bound) zero le = refl
bit_or-zero_below (suc bound) (suc x) le =
    let high = bit_or-zero_below bound (suc x / 2) (omega arith) in
    omega (arith, high, bit_or_step (suc x) 0)

pub bit_or-zero : (x : ℕ) → bit_or x 0 ≡ x
bit_or-zero x = bit_or-zero_below x x (omega arith)

-- Shifting by one and putting a bit in.
pub bit_or_shift_in : (a b : ℕ) → b < 2 → bit_or (a * 2) b ≡ a * 2 + b
bit_or_shift_in a b h = ground (arith, bit_or_step (a * 2) b, bit_or-zero a)

pub double-pow : (base n : ℕ) → base * 2 ^ suc n ≡ 2 * (base * 2 ^ n)
double-pow base n =
    let scaled = ap (λ (power : ℕ). base * power) (pow-suc 2 n) in omega (arith, scaled)

-- Disjoint fields: a value below `2 ^ k` beside one that is shifted left by `k`.
pub bit_or_low_field : (k q r : ℕ) → r < 2 ^ k → bit_or r (q * 2 ^ k) ≡ q * 2 ^ k + r
bit_or_low_field zero q zero h = omega (arith, zero-bit_or (q * 1))
bit_or_low_field zero q (suc r) h = absurd (omega arith)
bit_or_low_field (suc k) q r h = ground (
  arith,
  bit_or_step r (q * 2 ^ suc k),
  double-pow q k,
  pow-suc 2 k,
  bit_or_low_field k q (r / 2) (omega (arith, pow-suc 2 k)),
)

pub bit_or_high_field : (k q r : ℕ) → r < 2 ^ k → bit_or (q * 2 ^ k) r ≡ q * 2 ^ k + r
bit_or_high_field zero q zero h = omega (arith, bit_or-zero (q * 1))
bit_or_high_field zero q (suc r) h = absurd (omega arith)
bit_or_high_field (suc k) q r h = ground (
  arith,
  bit_or_step (q * 2 ^ suc k) r,
  double-pow q k,
  pow-suc 2 k,
  bit_or_high_field k q (r / 2) (omega (arith, pow-suc 2 k)),
)

-- The digit recursion that `bit_and` stands for, with more fuel than it needs.
abbrev and_digits : ℕ → ℕ → ℕ → ℕ
and_digits fuel x y = digits (λ t. zero) min fuel x y

and_digits_spare :
    (x y fuel spare : ℕ) → x ≤ spare → x ≤ fuel → and_digits spare x y ≡ and_digits fuel x y
and_digits_spare zero y zero zero le le' = refl
and_digits_spare zero y zero (suc spare) le le' = refl
and_digits_spare zero y (suc fuel) zero le le' = refl
and_digits_spare zero y (suc fuel) (suc spare) le le' = refl
and_digits_spare (suc x) y zero spare le le' = elim le' [ ]
and_digits_spare (suc x) y (suc fuel) zero le le' = elim le [ ]
and_digits_spare (suc x) y (suc fuel) (suc spare) le le' =
    let high : and_digits spare (suc x / 2) (y / 2) ≡ and_digits fuel (suc x / 2) (y / 2) =
      and_digits_spare (suc x / 2) (y / 2) fuel spare (omega arith) (omega arith) in
    ap (λ (h : ℕ). h * 2 + min (suc x % 2) (y % 2)) high

pub zero-bit_and : (y : ℕ) → bit_and 0 y ≡ 0
zero-bit_and y = bit_and-bitwise 0 y

-- The lowest digit of an intersection, and the rest.
pub bit_and_step : (x y : ℕ) → bit_and x y ≡ bit_and (x / 2) (y / 2) * 2 + min (x % 2) (y % 2)
bit_and_step zero y = omega (arith, zero-bit_and (y / 2), zero-bit_and y)
bit_and_step (suc x) y =
    let half = suc x / 2 in
    let spare = and_digits_spare half (y / 2) half x (omega arith) (omega arith) in
    omega (arith, spare, bit_and-bitwise half (y / 2), bit_and-bitwise (suc x) y)

bit_and-zero_below : (bound x : ℕ) → x ≤ bound → bit_and x 0 ≡ 0
bit_and-zero_below bound zero le = zero-bit_and 0
bit_and-zero_below zero (suc x) le = elim le [ ]
bit_and-zero_below (suc bound) (suc x) le =
    let high = bit_and-zero_below bound (suc x / 2) (omega arith) in
    omega (arith, high, bit_and_step (suc x) 0)

pub bit_and-zero : (x : ℕ) → bit_and x 0 ≡ 0
bit_and-zero x = bit_and-zero_below x x (omega arith)

-- A mask of one bit reads that bit.
pub bit_and-pow : (k x : ℕ) → bit_and x (2 ^ k) ≡ x / 2 ^ k % 2 * 2 ^ k
bit_and-pow zero x =
    omega (arith, bit_and_step x 1, bit_and-zero_below (x / 2) (x / 2) (omega arith))
bit_and-pow (suc k) x =
    let deeper : x / 2 / 2 ^ k ≡ x / 2 ^ suc k =
      div-div-eq-div-mul x 2 (2 ^ k) ∙ ap (λ (t : ℕ). x / t) (omega (arith, pow-suc 2 k)) in
    ground (
      arith,
      bit_and_step x (2 ^ suc k),
      bit_and-pow k (x / 2),
      deeper,
      pow-suc 2 k,
      double-pow (x / 2 ^ suc k % 2) k,
    )

-- The test of one bit.
pub tests-pow : (x k : ℕ) → tests x (2 ^ k) ≡ is_odd (x / 2 ^ k)
tests-pow x k = ground (arith, bit_and-pow k x, one-le-pow k 2)

div-pow-suc : (x k : ℕ) → x / 2 ^ suc k ≡ x / 2 / 2 ^ k
div-pow-suc x k =
    ap (λ (t : ℕ). x / t) (omega (arith, pow-suc 2 k)) ∙ sym (div-div-eq-div-mul x 2 (2 ^ k))

odd-bit_and :
    (k x y : ℕ) → is_odd (bit_and x y / 2 ^ k) ≡ (is_odd (x / 2 ^ k) && is_odd (y / 2 ^ k))
odd-bit_and zero x y = ground (arith, bit_and_step x y)
odd-bit_and (suc k) x y =
    let high : bit_and x y / 2 ≡ bit_and (x / 2) (y / 2) = ground (arith, bit_and_step x y) in
    let deeper = odd-bit_and k (x / 2) (y / 2) in
    ground (arith, high, deeper, div-pow-suc x k, div-pow-suc y k, div-pow-suc (bit_and x y) k)

odd-bit_or : (k x y : ℕ) → is_odd (bit_or x y / 2 ^ k) ≡ (is_odd (x / 2 ^ k) || is_odd (y / 2 ^ k))
odd-bit_or zero x y = ground (arith, bit_or_step x y)
odd-bit_or (suc k) x y =
    let high : bit_or x y / 2 ≡ bit_or (x / 2) (y / 2) = ground (arith, bit_or_step x y) in
    let deeper = odd-bit_or k (x / 2) (y / 2) in
    ground (arith, high, deeper, div-pow-suc x k, div-pow-suc y k, div-pow-suc (bit_or x y) k)

-- A bit of an `and` is the `and` of the bits.
pub tests-bit_and : (k x y : ℕ) → tests (bit_and x y) (2 ^ k) ≡ (tests x (2 ^ k) && tests y (2 ^ k))
tests-bit_and k x y =
    ground (arith, odd-bit_and k x y, tests-pow x k, tests-pow y k, tests-pow (bit_and x y) k)

-- A bit of an `or` is the `or` of the bits.
pub tests-bit_or : (k x y : ℕ) → tests (bit_or x y) (2 ^ k) ≡ (tests x (2 ^ k) || tests y (2 ^ k))
tests-bit_or k x y =
    ground (arith, odd-bit_or k x y, tests-pow x k, tests-pow y k, tests-pow (bit_or x y) k)
