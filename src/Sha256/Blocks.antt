-- ===== src/Sha256/Blocks.antt =====
-- Whole blocks.
use mathlib.Core.List.{append_assoc}
use coin_line_emu.Base.{
  ℕ, zero, suc, ◌+◌, ◌*◌, ◌<◌, ◌≡◌, ◌∙◌, ap, sym, refl, true, List, [], ◌∷◌, ◌++◌, arith, ◌==◌,
  length, take, drop, set, length-append,
}
use coin_line_emu.Sha256.{Hash, compress, transform, copy_at, flush}
use coin_line_emu.Sha256.Reference.{blocks, compress_all}
use coin_line_emu.Sha256.Padding.{
  push_all, push_all-append, push_all-flush, copied, length-take, length-drop, take-drop,
}

pub copy_at-append :
    (buf : List ℕ) (pos : ℕ) (front back : List ℕ)
    → copy_at buf pos (front ++ back) ≡ copy_at (copy_at buf pos front) (pos + length front) back
unfolding copy_at
copy_at-append buf pos [] back =
    ap (λ (n : ℕ). copy_at buf n back) (let z : pos ≡ pos + 0 = omega arith in z)
copy_at-append buf pos (b ∷ front) back =
    copy_at-append (set buf pos b) (pos + 1) front back
    ∙ ap (λ (n : ℕ). copy_at (copy_at (set buf pos b) (pos + 1) front) n back)
        (let z : pos + 1 + length front ≡ pos + suc (length front) = omega arith in z)

set_middle :
    (front : List ℕ) (r b : ℕ) (rest : List ℕ)
    → set (front ++ (r ∷ rest)) (length front) b ≡ front ++ (b ∷ rest)
set_middle [] r b rest = refl
set_middle (x ∷ front) r b rest = ap (λ (t : List ℕ). x ∷ t) (set_middle front r b rest)

-- A chunk that fills the rest of a buffer.
copy_at_all :
    (front rest chunk : List ℕ) (pos : ℕ)
    → pos ≡ length front
    → length rest ≡ length chunk
    → copy_at (front ++ rest) pos chunk ≡ front ++ chunk
unfolding copy_at
copy_at_all front [] [] pos e h = refl
copy_at_all front [] (b ∷ chunk) pos e h = absurd (omega arith)
copy_at_all front (r ∷ rest) [] pos e h = absurd (omega arith)
copy_at_all front (r ∷ rest) (b ∷ chunk) pos e h =
    let placed =
      ap (λ (n : ℕ). set (front ++ (r ∷ rest)) n b) e
      ∙ (set_middle front r b rest ∙ sym (append_assoc front (b ∷ []) rest)) in
    ap (λ (t : List ℕ). copy_at t (pos + 1) chunk) placed
    ∙ (copy_at_all (front ++ (b ∷ [])) rest chunk (pos + 1)
          (omega (arith, e, length-append front (b ∷ []))) (omega (arith, h))
        ∙ append_assoc front (b ∷ []) chunk)

flush_full : (s : Hash) → s.buflen ≡ 64 → flush s ≡ record (transform s) { buflen = 0 }
unfolding flush
flush_full s h = let full : (s.buflen == 64) ≡ true = ground (arith, h) in rw full refl

-- Bytes that fill up the block compress it.
pub fill-compress :
    (bytes : List ℕ) (s : Hash)
    → 0 < length bytes
    → s.buflen + length bytes ≡ 64
    → push_all bytes s ≡ record (transform (copied bytes s)) { buflen = 0 }
fill-compress bytes s some_byte full =
    push_all-flush bytes s some_byte (omega (arith, full)) ∙ flush_full (copied bytes s) full

push_nothing : (s : Hash) → (push_all [] s).h ≡ s.h
unfolding push_all
push_nothing s = refl

-- Whole blocks are compressed one after the other.
pub push_all-blocks :
    (m : ℕ) (bytes : List ℕ) (s : Hash)
    → s.buflen ≡ 0
    → length s.buf ≡ 64
    → length bytes ≡ 64 * m
    → (push_all bytes s).h ≡ compress_all s.h (blocks m bytes)
unfolding blocks compress_all transform
push_all-blocks zero [] s start size total = push_nothing s
push_all-blocks zero (b ∷ bytes) s start size total = absurd (omega arith)
push_all-blocks (suc m) bytes s start size total =
    let chunk = take 64 bytes in
    let rest = drop 64 bytes in
    let width : length chunk ≡ 64 = length-take 64 bytes (omega (arith, total)) in
    let left = length-drop 64 bytes in
    let filled = fill-compress chunk s (omega (arith, width)) (omega (arith, width, start)) in
    let whole : copy_at s.buf s.buflen chunk ≡ chunk =
      copy_at_all [] s.buf chunk s.buflen start (omega (arith, size, width)) in
    let next : Hash = record s {
      h = compress s.h (copy_at s.buf s.buflen chunk);
      buf = copy_at s.buf s.buflen chunk;
      buflen = 0;
    } in
    ap (λ (xs : List ℕ). (push_all xs s).h) (sym (take-drop 64 bytes))
    ∙ (ap (λ (t : Hash). t.h) (push_all-append chunk rest s)
        ∙ (ap (λ (t : Hash). (push_all rest t).h) filled
            ∙ (push_all-blocks m rest next refl (omega (arith, ap length whole, width))
                  (omega (arith, left, total))
                ∙ ap (λ (c : List ℕ). compress_all (compress s.h c) (blocks m rest)) whole)))
