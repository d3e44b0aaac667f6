-- ===== src/Vfd/Bracket.antt =====
-- Where the rows of a snapshot are found.
use coin_line_emu.Base.{
  ℕ, zero, suc, ◌+◌, ◌*◌, ◌/◌, ◌%◌, ◌≤◌, ◌≡◌, ◌≢◌, ◌∙◌, ap, refl, Bool, true, false, not, ◌&&◌,
  ◌||◌, Option, some, List, [], ◌∷◌, ◌++◌, arith, ltb, ◌==◌, length, drop, All, All-append_iff,
  if_cases, both_branches, eq_self,
}
use coin_line_emu.Base.Text.{◌>>=◌, bytes, find_text, find_char, find_char_from, starts_with}
use coin_line_emu.Nvram.Envelope.{decimal, decimal_from}
use coin_line_emu.Vfd.{Profile}
use coin_line_emu.Vfd.Snapshot.{low_digit, escape_char, json_escape, joined, snapshot_front}
use coin_line_emu.Vfd.Fixture.{Place, read_rows, parse_json_text_rows}

-- A text without an opening bracket.
abbrev pub HasNoBracket : List ℕ → Type 0
HasNoBracket s = All (λ c. c ≢ b'[') s

-- A text is found in front of what follows it, or earlier.
starts_with_self : (key s : List ℕ) → starts_with key (key ++ s) ≡ true
unfolding starts_with
starts_with_self [] s = refl
starts_with_self (k ∷ key) s = rw (eq_self k) (starts_with_self key s)

find_text-bound :
    (k : ℕ) (key front back : List ℕ)
    → (pos : ℕ) × (find_text (k ∷ key) (front ++ ((k ∷ key) ++ back)) ≡ some pos)
      × (pos ≤ length front)
unfolding find_text
find_text-bound k key [] back =
    let found = starts_with_self (k ∷ key) back in (0, rw found refl, omega arith)
find_text-bound k key (c ∷ front) back =
    let later = find_text-bound k key front back in
    let P = λ (o : Option ℕ). (pos : ℕ) × (o ≡ some pos) × (pos ≤ length (c ∷ front)) in
    both_branches P (starts_with (k ∷ key) (c ∷ (front ++ ((k ∷ key) ++ back)))) (some 0) _
      (0, refl, omega arith)
      (suc later.0, ap (λ (o : Option ℕ). o >>= λ i. some (suc i)) later.1, omega (arith, later.2))

-- The bracket behind a text without one.
find_bracket :
    (front back : List ℕ) (k n : ℕ)
    → HasNoBracket front
    → k ≤ length front
    → find_char b'[' back ≡ some n
    → (i : ℕ) × (find_char b'[' (drop k (front ++ back)) ≡ some i) × (k + i ≡ length front + n)
unfolding find_char
find_bracket [] back zero n none_in le at = (n, at, refl)
find_bracket [] back (suc k) n none_in le at = absurd (omega arith)
find_bracket (c ∷ front) back zero n none_in le at =
    let later = find_bracket front back zero n none_in.1 (omega arith) at in
    let other : (b'[' == c) ≡ false = ground (arith, none_in.0) in
    (
      suc later.0,
      rw (other) (ap (λ (o : Option ℕ). o >>= λ i. some (suc i)) later.1),
      omega (arith, later.2),
    )
find_bracket (c ∷ front) back (suc k) n none_in le at =
    let later = find_bracket front back k n none_in.1 (omega arith) at in
    (later.0, later.1, omega (arith, later.2))

drop-append :
    {A : Type 0} (front back : List A) (n : ℕ)
    → drop (length front + n) (front ++ back) ≡ drop n back
drop-append [] back n = ap (λ (k : ℕ). drop k back) (let z : 0 + n ≡ n = omega arith in z)
drop-append (x ∷ front) back n =
    ap (λ (k : ℕ). drop k (x ∷ (front ++ back)))
      (let z : suc (length front) + n ≡ suc (length front + n) = omega arith in z)
    ∙ drop-append front back n

HasNoBracket-append :
    (front back : List ℕ) → HasNoBracket front → HasNoBracket back → HasNoBracket (front ++ back)
HasNoBracket-append front back hf hb = (All-append_iff (λ c. c ≢ b'[') front back).1 (hf, hb)

-- The test on a text that is written out.
abbrev no_bracket : List ℕ → Bool
no_bracket [] = true
no_bracket (c ∷ s) = not (c == b'[') && no_bracket s

no_bracket-HasNoBracket : (s : List ℕ) → no_bracket s ≡ true → HasNoBracket s
no_bracket-HasNoBracket [] h = tt
no_bracket-HasNoBracket (c ∷ s) h =
    ((λ e. ground (arith, h, e)), no_bracket-HasNoBracket s (ground (arith, h)))

escape_char-HasNoBracket : (c : ℕ) → c ≢ b'[' → HasNoBracket (escape_char c)
unfolding escape_char low_digit
escape_char-HasNoBracket c other =
    let P = λ (s : List ℕ). HasNoBracket s in
    let digit = λ (n : ℕ).
      if_cases (λ (d : ℕ). d ≢ b'[') (ltb n 10) (b'0' + n) (87 + n) (λ h e. ground (arith, h, e))
        (λ h e. ground (arith, h, e)) in
    both_branches P (c == b'\\' || c == b'"') _ _ ((λ e. omega (arith, e)), (other, tt))
      (if_cases P (ltb c 0x20) _ _
        (λ control. (
          (λ e. omega (arith, e)),
          (
            (λ e. omega (arith, e)),
            (
              (λ e. omega (arith, e)),
              ((λ e. omega (arith, e)), (digit (c / 16), (digit (c % 16), tt))),
            ),
          ),
        ))
        (λ _. (other, tt)))

json_escape-HasNoBracket : (s : List ℕ) → HasNoBracket s → HasNoBracket (json_escape s)
unfolding json_escape
json_escape-HasNoBracket [] h = tt
json_escape-HasNoBracket (c ∷ s) h =
    HasNoBracket-append (escape_char c) (json_escape s) (escape_char-HasNoBracket c h.0)
      (json_escape-HasNoBracket s h.1)

decimal_from-HasNoBracket :
    (fuel n : ℕ) (rest : List ℕ) → HasNoBracket rest → HasNoBracket (decimal_from fuel n rest)
unfolding decimal_from
decimal_from-HasNoBracket zero n rest h = ((λ e. omega (arith, e)), h)
decimal_from-HasNoBracket (suc fuel) n rest h =
    let shorter : HasNoBracket ((b'0' + n % 10) ∷ rest) = ((λ e. omega (arith, e)), h) in
    both_branches (λ (s : List ℕ). HasNoBracket s) (ltb n 10) _ _ shorter
      (decimal_from-HasNoBracket fuel (n / 10) ((b'0' + n % 10) ∷ rest) shorter)

decimal-HasNoBracket : (n : ℕ) → HasNoBracket (decimal n)
unfolding decimal
decimal-HasNoBracket n = decimal_from-HasNoBracket n n [] tt

joined-HasNoBracket :
    (pieces : List (List ℕ)) → All (λ s. HasNoBracket s) pieces → HasNoBracket (joined pieces)
unfolding joined
joined-HasNoBracket [] h = tt
joined-HasNoBracket (piece ∷ pieces) h =
    HasNoBracket-append piece (joined pieces) h.0 (joined-HasNoBracket pieces h.1)

pub snapshot_front-HasNoBracket :
    (p : Profile) → HasNoBracket p.variant → HasNoBracket (snapshot_front p)
unfolding snapshot_front bytes
snapshot_front-HasNoBracket p h =
    let literal = λ (s : List ℕ) (e : no_bracket s ≡ true). no_bracket-HasNoBracket s e in
    let number = λ (n : ℕ). decimal-HasNoBracket n in
    joined-HasNoBracket _ (
      literal (bytes "{\"variant\":\"") refl,
      (
        json_escape-HasNoBracket p.variant h,
        (
          literal (bytes "\",\"rows\":") refl,
          (
            number p.rows,
            (
              literal (bytes ",\"columns\":") refl,
              (
                number p.columns,
                (
                  literal (bytes ",\"dot_rows\":") refl,
                  (
                    number (p.rows * 7),
                    (
                      literal (bytes ",\"dot_cols\":") refl,
                      (number (p.columns * 5), (literal (bytes ",") refl, tt)),
                    ),
                  ),
                ),
              ),
            ),
          ),
        ),
      ),
    )

-- The text behind the bracket is what the rows are read from.
pub parse-bracket :
    (front back : List ℕ)
    → HasNoBracket front
    → parse_json_text_rows (front ++ (bytes "\"text\":[" ++ back)) ≡ read_rows Place.before [] back
unfolding parse_json_text_rows find_char_from find_char bytes
parse-bracket front back clean =
    let key = bytes "text\"" in
    let found = find_text-bound b'"' key front (bytes ":[" ++ back) in
    let bracket = find_bracket front (bytes "\"text\":[" ++ back) found.0 7 clean found.2 refl in
    let at : found.0 + bracket.0 + 1 ≡ length front + 8 = omega (arith, bracket.2) in
    let json = front ++ (bytes "\"text\":[" ++ back) in
    rw (found.1) (
      rw (bracket.1) (
        ap (λ (k : ℕ). read_rows Place.before [] (drop k json)) at
        ∙ ap (λ (s : List ℕ). read_rows Place.before [] s)
            (drop-append front (bytes "\"text\":[" ++ back) 8)))
