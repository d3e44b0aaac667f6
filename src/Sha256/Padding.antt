-- ===== src/Sha256/Padding.antt =====
-- The bytes of a message, one at a time.
use coin_line_emu.Base.{
  ℕ, zero, suc, ◌+◌, ◌-◌, ◌<◌, ◌≤◌, ◌≡◌, ◌∙◌, ap, sym, refl, min, false, List, [], ◌∷◌, ◌++◌, arith,
  ◌==◌, length, take, drop, set, u32, if_cases,
}
use coin_line_emu.Sha256.{Hash, copy_at, flush, update_loop}

-- A byte goes into the block, which is compressed when it is full.
unfoldable pub push : ℕ → Hash → Hash
push b s = flush (record s { buf = set s.buf s.buflen b; buflen = s.buflen + 1 })

unfoldable pub push_all : List ℕ → Hash → Hash
push_all [] s = s
push_all (b ∷ bytes) s = push_all bytes (push b s)

pub push_all-append :
    (front back : List ℕ) (s : Hash) → push_all (front ++ back) s ≡ push_all back (push_all front s)
unfolding push_all
push_all-append [] back s = refl
push_all-append (b ∷ front) back s = push_all-append front back (push b s)

-- A chunk is in the block from a position on.
abbrev pub copied : List ℕ → Hash → Hash
copied bytes s = record s { buf = copy_at s.buf s.buflen bytes; buflen = s.buflen + length bytes }

flush_open : (s : Hash) → s.buflen < 64 → flush s ≡ s
unfolding flush
flush_open s h = let open_block : (s.buflen == 64) ≡ false = ground arith in rw open_block refl

-- Bytes that fit into the block go there as one chunk.
pub push_all-chunk :
    (b : ℕ) (bytes : List ℕ) (s : Hash)
    → s.buflen + suc (length bytes) ≤ 64
    → push_all (b ∷ bytes) s ≡ flush (copied (b ∷ bytes) s)
unfolding push_all push copy_at
push_all-chunk b [] s fits = refl
push_all-chunk b (c ∷ rest) s fits =
    let t : Hash = record s { buf = set s.buf s.buflen b; buflen = s.buflen + 1 } in
    let kept = flush_open t (omega arith) in
    let total : s.buflen + 1 + length (c ∷ rest) ≡ s.buflen + length (b ∷ c ∷ rest) = omega arith in
    ap (λ (u : Hash). push_all (c ∷ rest) u) kept
    ∙ (push_all-chunk c rest t (omega arith)
        ∙ ap
            (λ (n : ℕ). flush (record s {
              buf = copy_at (set s.buf s.buflen b) (s.buflen + 1) (c ∷ rest);
              buflen = n;
            }))
            total)

pub take-drop : (n : ℕ) (xs : List ℕ) → take n xs ++ drop n xs ≡ xs
take-drop zero xs = refl
take-drop (suc n) [] = refl
take-drop (suc n) (x ∷ xs) = ap (λ (ys : List ℕ). x ∷ ys) (take-drop n xs)

pub length-take : (n : ℕ) (xs : List ℕ) → n ≤ length xs → length (take n xs) ≡ n
length-take zero xs h = refl
length-take (suc n) [] h = absurd (omega arith)
length-take (suc n) (x ∷ xs) h = ap suc (length-take n xs (omega arith))

pub length-drop : (n : ℕ) (xs : List ℕ) → length (drop n xs) ≡ length xs - n
length-drop zero xs = omega arith
length-drop (suc n) [] = omega arith
length-drop (suc n) (x ∷ xs) = omega (arith, length-drop n xs)

-- A chunk that is not empty.
pub push_all-flush :
    (bytes : List ℕ) (s : Hash)
    → 0 < length bytes
    → s.buflen + length bytes ≤ 64
    → push_all bytes s ≡ flush (copied bytes s)
push_all-flush [] s some_byte fits = absurd (omega arith)
push_all-flush (b ∷ bytes) s some_byte fits = push_all-chunk b bytes s fits

pub flush_bound : (s : Hash) → s.buflen ≤ 64 → (flush s).buflen < 64
unfolding flush
flush_bound s h =
    if_cases (λ (t : Hash). t.buflen < 64) (s.buflen == 64) _ s (λ _. omega arith)
      (λ other. ground (arith, other))

push_none : (s : Hash) → s ≡ push_all [] s
unfolding push_all
push_none s = refl

-- The loop of `update` is the bytes one at a time.
pub update_loop-push_all :
    (fuel : ℕ) (bytes : List ℕ) (s : Hash)
    → length bytes ≤ fuel
    → length bytes < 4294967296
    → s.buflen < 64
    → update_loop fuel bytes s ≡ push_all bytes s
unfolding update_loop
update_loop-push_all zero [] s enough short partial = push_none s
update_loop-push_all zero (b ∷ bytes) s enough short partial = absurd (omega arith)
update_loop-push_all (suc fuel) [] s enough short partial = push_none s
update_loop-push_all (suc fuel) (b ∷ bytes) s enough short partial =
    let text : List ℕ = b ∷ bytes in
    let count = min (64 - s.buflen) (u32 (length text)) in
    let front : List ℕ = take count text in
    let back : List ℕ = drop count text in
    let size : length front ≡ count = length-take count text (omega arith) in
    let rest = length-drop count text in
    let chunk = push_all-flush front s (omega (arith, size)) (omega (arith, size)) in
    let next : Hash = record s { buf = copy_at s.buf s.buflen front; buflen = s.buflen + count } in
    let same : copied front s ≡ next =
      ap (λ (n : ℕ). record s { buf = copy_at s.buf s.buflen front; buflen = s.buflen + n }) size in
    update_loop-push_all fuel back (flush next) (omega (arith, rest)) (omega (arith, rest))
      (flush_bound next (omega arith))
    ∙ (ap (λ (u : Hash). push_all back u) (sym (chunk ∙ ap flush same))
        ∙ (sym (push_all-append front back s)
            ∙ ap (λ (xs : List ℕ). push_all xs s) (take-drop count text)))
