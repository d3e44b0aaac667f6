-- ===== src/Sha256/Streaming.antt =====
-- Updates one after the other.
use coin_line_emu.Base.{
  ℕ, ◌+◌, ◌<◌, ◌≡◌, ◌∙◌, ap, sym, refl, inl, inr, List, [], ◌∷◌, ◌++◌, arith, ◌==◌, length,
  length-append, u64, Bool-cases,
}
use coin_line_emu.Sha256.{Hash, transform, flush, update}
use coin_line_emu.Sha256.Padding.{push, push_all, push_all-append, update_loop-push_all}
use coin_line_emu.Sha256.Whole.{push_all-buflen}

push-counted :
    (b t : ℕ) (s : Hash) → push b (record s { total_len = t }) ≡ record (push b s) { total_len = t }
unfolding push flush transform
push-counted b t s = elim (Bool-cases (s.buflen + 1 == 64)) [
  | inl full ↦ rw full refl
  | inr open_block ↦ rw open_block refl
]

push_all-counted :
    (bytes : List ℕ) (t : ℕ) (s : Hash)
    → push_all bytes (record s { total_len = t }) ≡ record (push_all bytes s) { total_len = t }
unfolding push_all
push_all-counted [] t s = refl
push_all-counted (b ∷ bytes) t s =
    ap (λ (u : Hash). push_all bytes u) (push-counted b t s) ∙ push_all-counted bytes t (push b s)

-- An update is the bytes one at a time, and counts them.
update-push_all :
    (bytes : List ℕ) (s : Hash)
    → length bytes < 4294967296
    → s.buflen < 64
    → update bytes s ≡ record (push_all bytes s) { total_len = u64 (s.total_len + length bytes) }
unfolding update
update-push_all bytes s small partial =
    let t = u64 (s.total_len + length bytes) in
    update_loop-push_all (length bytes) bytes (record s { total_len = t }) (omega arith) small
      partial
    ∙ push_all-counted bytes t s

-- Two updates are the update by both texts.
pub update-append :
    (front back : List ℕ) (s : Hash)
    → length front + length back < 4294967296
    → s.buflen < 64
    → update (front ++ back) s ≡ update back (update front s)
update-append front back s small partial =
    let total = length-append front back in
    let first = update-push_all front s (omega arith) partial in
    let filled = push_all front s in
    let counted = u64 (s.total_len + length front) in
    let t : Hash = record filled { total_len = counted } in
    let place = push_all-buflen front s partial in
    let second = update-push_all back t (omega arith) (omega (arith, place)) in
    let sum : u64 (s.total_len + length (front ++ back)) ≡ u64 (counted + length back) =
      omega (arith, total) in
    update-push_all (front ++ back) s (omega (arith, total, small)) partial
    ∙ (ap (λ (u : Hash). record u { total_len = u64 (s.total_len + length (front ++ back)) })
          (push_all-append front back s)
        ∙ (ap (λ (k : ℕ). record (push_all back filled) { total_len = k }) sum
            ∙ (sym (
                  second
                  ∙ ap (λ (u : Hash). record u { total_len = u64 (counted + length back) })
                      (push_all-counted back counted filled))
                ∙ ap (λ (u : Hash). update back u) (sym first))))
