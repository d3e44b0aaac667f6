-- ===== src/Pcd/Queues.antt =====
-- The queues to the host in every run.
use coin_line_emu.Base.{
  both_branches, get_or, ap, sym, subst, ◌∙◌, ◌&&◌, ℕ, ◌≡◌, ◌≢◌, refl, Bool, false, not, List, [],
  ◌∷◌, ◌++◌, arith, All, All-append_iff, ◌==◌, if◌then◌else◌, Bool-cases, inl, inr,
}
use coin_line_emu.Base.Text.{is_empty}
use coin_line_emu.Am8048.Surrounding.{Keeps}
use coin_line_emu.Pcd.{
  Pcd, callbacks, write_port, put_latch, push_tx, push_ui, tone_registers_changed, trace, tone_of,
}

-- No event of the front panel is the idle level.
abbrev pub IsEvent : ℕ → Type 0
IsEvent v = v ≢ 0xff

-- The flag of a pending byte is right, and no idle level waits.
pub record Consistent (serving : Bool) (p : Pcd) : Type 0 where
  pub pending : p.obs.tx_pending ≡ not (is_empty p.tx_bytes)
  pub events : All IsEvent p.ui_events
  pub serves : p.servicing_cp_byte ≡ serving

not_empty : (xs : List ℕ) (x : ℕ) → is_empty (xs ++ (x ∷ [])) ≡ false
not_empty [] x = refl
not_empty (y ∷ ys) x = refl

-- Only the fields of the queues matter.
pub same_queues :
    (s : Bool) (p q : Pcd)
    → Consistent s p
    → q.obs.tx_pending ≡ p.obs.tx_pending
    → q.tx_bytes ≡ p.tx_bytes
    → q.ui_events ≡ p.ui_events
    → q.servicing_cp_byte ≡ p.servicing_cp_byte
    → Consistent s q
same_queues s p q h a b c d = record {
  pending = a ∙ h.pending ∙ ap (λ (xs : List ℕ). not (is_empty xs)) (sym b);
  events = subst (All IsEvent) (sym c) h.events;
  serves = d ∙ h.serves;
}

put_latch-Consistent :
    (s : Bool) (port v : ℕ) (p : Pcd) → Consistent s p → Consistent s (put_latch port v p)
put_latch-Consistent s port v p h =
    same_queues s p (put_latch port v p) h (ground arith) (ground arith) (ground arith)
      (ground arith)

push_tx-Consistent : (s : Bool) (v : ℕ) (p : Pcd) → Consistent s p → Consistent s (push_tx v p)
push_tx-Consistent s v p h = record {
  pending = ground (arith, not_empty p.tx_bytes v);
  events = h.events;
  serves = h.serves;
}

push_ui-Consistent : (s : Bool) (v : ℕ) (p : Pcd) → Consistent s p → Consistent s (push_ui v p)
push_ui-Consistent s v p h = elim (Bool-cases (v == 0xff)) [
  | inl idle ↦
      same_queues s p (push_ui v p) h (ground (arith, idle)) (ground (arith, idle))
        (ground (arith, idle)) (ground (arith, idle))
  | inr event ↦
      let pushed : Pcd = record p { ui_events = p.ui_events ++ (v ∷ []) } in
      let same : push_ui v p ≡ pushed = ground (arith, event) in
      let is_event : v ≢ 0xff = ground (arith, event) in
      let all = (All-append_iff IsEvent p.ui_events (v ∷ [])).1 (h.events, (is_event, tt)) in
      let ok : Consistent s pushed = record {
        pending = h.pending;
        events = all;
        serves = h.serves;
      } in
      subst (Consistent s) (sym same) ok
]

write_port-Consistent :
    (s : Bool) (port v : ℕ) (p : Pcd) → Consistent s p → Consistent s (write_port port v p)
unfolding write_port
write_port-Consistent s port v p0 h =
    let p = put_latch port v p0 in
    let k = put_latch-Consistent s port v p0 h in
    let P = Consistent s in
    let hgf : Pcd = record p { obs = record p.obs { hgf = v; tone = tone_of v p.obs.lgf } } in
    let lgf : Pcd = record p { obs = record p.obs { lgf = v; tone = tone_of p.obs.hgf v } } in
    let tones = if port == 4 then hgf else if port == 5 then lgf else p in
    both_branches P (port == 0 && p.servicing_cp_byte) (push_tx v p)
      (if port == 0 then push_ui v p else tones) (push_tx-Consistent s v p k)
      (both_branches P (port == 0) (push_ui v p) tones (push_ui-Consistent s v p k) (
        both_branches P (port == 4) hgf (if port == 5 then lgf else p)
          (same_queues s p hgf k refl refl refl refl)
          (both_branches P (port == 5) lgf p (same_queues s p lgf k refl refl refl refl) k)))

pub Consistent-Keeps : (s : Bool) → Keeps callbacks (Consistent s)
unfolding tone_registers_changed trace
Consistent-Keeps s = record {
  port_keeps = λ p v e h. write_port-Consistent s p v e h;
  ext_keeps = λ addr v e h. h;
  tones_keep = λ c e h.
      same_queues s e (tone_registers_changed (get_or c.port_latch 4 0) (get_or c.port_latch 5 0) e)
        h refl refl refl refl;
  trace_keeps = λ event v c e h. h;
}
