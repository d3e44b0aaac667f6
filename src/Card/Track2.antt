-- ===== src/Card/Track2.antt =====
-- The track-2 decoder on the track that a card carries.
use coin_line_emu.Base.{
  ℕ, suc, ◌-◌, ◌<◌, ◌≡◌, refl, ◌∙◌, ap, Bool, true, false, some, List, [], ◌∷◌, ◌++◌, arith, ◌==◌,
  length, take, All, length-append, eq_self,
}
use coin_line_emu.Base.Text.{is_digit, find_char}
use coin_line_emu.Card.{
  no_error, xor_lrc_byte, is_legal, all_legal, pan_of, decode_payload, decode_body,
  decode_track2_ascii,
}
use coin_line_emu.Card.Load.{track_xor_ok-xor_lrc_byte}

take-append : (xs ys : List ℕ) → take (length xs) (xs ++ ys) ≡ xs
take-append [] ys = refl
take-append (x ∷ xs) ys = ap (λ (t : List ℕ). x ∷ t) (take-append xs ys)

-- The first occurrence behind elements that differ.
find_char-append :
    (k : ℕ) (xs ys : List ℕ)
    → All (λ c. (k == c) ≡ false) xs
    → find_char k (xs ++ k ∷ ys) ≡ some (length xs)
unfolding find_char
find_char-append k [] ys h = ground (arith, eq_self k)
find_char-append k (x ∷ xs) ys h = ground (arith, h.0, find_char-append k xs ys h.1)

-- A payload: an account number, a separator and the rest.
abbrev pub payload_of : List ℕ → List ℕ → List ℕ
payload_of pan extra = pan ++ b'=' ∷ extra

-- A track: the payload between its sentinels.
abbrev pub track_of : List ℕ → List ℕ → List ℕ
track_of pan extra = b';' ∷ payload_of pan extra ++ b'?' ∷ []

abbrev pub IsDigits : List ℕ → Type 0
IsDigits s = All (λ c. is_digit c ≡ true) s

abbrev pub IsLegal : List ℕ → Type 0
IsLegal s = All (λ c. is_legal c ≡ true) s

all_legal_of : (s : List ℕ) → IsLegal s → all_legal s ≡ true
unfolding all_legal
all_legal_of [] h = refl
all_legal_of (c ∷ s) h = ground (arith, h.0, all_legal_of s h.1)

payload_of-IsLegal :
    (pan extra : List ℕ) → IsDigits pan → IsLegal extra → IsLegal (payload_of pan extra)
unfolding is_legal is_digit
payload_of-IsLegal [] extra hp he = (refl, he)
payload_of-IsLegal (c ∷ pan) extra hp he =
    (ground (arith, hp.0), payload_of-IsLegal pan extra hp.1 he)

not_mark : (s : List ℕ) → IsLegal s → All (λ c. (b'?' == c) ≡ false) s
unfolding is_legal is_digit
not_mark [] h = tt
not_mark (c ∷ s) h = (ground (arith, h.0), not_mark s h.1)

not_separator : (s : List ℕ) → IsDigits s → All (λ c. (b'=' == c) ≡ false) s
unfolding is_digit
not_separator [] h = tt
not_separator (c ∷ s) h = (ground (arith, h.0), not_separator s h.1)

decode_payload-legal :
    (pan extra : List ℕ)
    → IsDigits pan
    → 0 < length pan
    → IsLegal extra
    → decode_payload (payload_of pan extra) false
      ≡ record { error = no_error; pan = pan; body = payload_of pan extra; reverse_swipe = false }
unfolding decode_payload pan_of
decode_payload-legal [] extra hp some_pan he = absurd (omega arith)
decode_payload-legal (c ∷ pan) extra hp some_pan he = ground (
  arith,
  find_char-append b'=' (c ∷ pan) extra (not_separator (c ∷ pan) hp),
  take-append (c ∷ pan) (b'=' ∷ extra),
  all_legal_of (payload_of (c ∷ pan) extra) (payload_of-IsLegal (c ∷ pan) extra hp he),
)

take_front :
    (body : List ℕ) (x n : ℕ) → n ≡ length (body ++ x ∷ []) - 1 → take n (body ++ x ∷ []) ≡ body
take_front body x n e =
    let at : n ≡ length body = omega (arith, e, length-append body (x ∷ [])) in
    ap (λ (k : ℕ). take k (body ++ x ∷ [])) at ∙ take-append body (x ∷ [])

decode-checked :
    (c : ℕ) (cs : List ℕ) (force : Bool)
    → decode_track2_ascii (c ∷ cs ++ xor_lrc_byte (c ∷ cs) ∷ []) true force
      ≡ decode_body (c ∷ cs) force
unfolding decode_track2_ascii
decode-checked c cs force =
    let lrc = xor_lrc_byte (c ∷ cs) in
    let full = c ∷ cs ++ lrc ∷ [] in
    let front : take (length full - 1) full ≡ c ∷ cs =
      take_front (c ∷ cs) lrc (length full - 1) refl in
    let long = length-append cs (lrc ∷ []) in
    ground (arith, track_xor_ok-xor_lrc_byte (c ∷ cs), front, long)

decode-sentinels :
    (payload : List ℕ) (force : Bool)
    → IsLegal payload
    → decode_body (b';' ∷ payload ++ b'?' ∷ []) force ≡ decode_payload payload force
unfolding decode_body find_char
decode-sentinels payload force h =
    let mark = find_char-append b'?' payload [] (not_mark payload h) in
    let at : suc (length payload) - 0 - 1 ≡ length payload = omega arith in
    let inside = take-append payload (b'?' ∷ []) in ground (arith, mark, at, inside)

-- A track of digits, a separator and digits or separators, with its sentinels and its check byte,
-- decodes to its account number and its payload.
pub decode_track2_ascii-track :
    (pan extra : List ℕ)
    → IsDigits pan
    → 0 < length pan
    → IsLegal extra
    → let track = track_of pan extra in
      decode_track2_ascii (track ++ xor_lrc_byte track ∷ []) true false
      ≡ record { error = no_error; pan = pan; body = payload_of pan extra; reverse_swipe = false }
decode_track2_ascii-track pan extra hp some_pan he =
    let payload = payload_of pan extra in
    decode-checked b';' (payload ++ b'?' ∷ []) false
    ∙ (decode-sentinels payload false (payload_of-IsLegal pan extra hp he)
        ∙ decode_payload-legal pan extra hp some_pan he)
