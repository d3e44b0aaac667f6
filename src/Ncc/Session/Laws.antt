-- ===== src/Ncc/Session/Laws.antt =====
-- When a session fails, how it recovers, and what an acknowledgement settles.
use coin_line_emu.Base.{
  ℕ, zero, suc, ◌+◌, ◌^◌, min, ◌↔◌, ◌<◌, ◌≡◌, ◌≢◌, refl, true, false, List, [], ◌∷◌, arith, leb,
  if◌then◌else◌, replicate, All, tests,
}
use coin_line_emu.Ncc.{Frame}
use coin_line_emu.Ncc.Session.{
  Session, Event, waiting_ack, established, failed, tx, rx, ack_timeout, control_ack, control_nack,
  control_clear_call, control_packet_id, on_tx_frame, on_rx_frame, on_ack_timeout, step, run,
}

run_timeouts_failed : (n : ℕ) (s : Session) → s.state ≡ failed → run (replicate n ack_timeout) s ≡ s
unfolding run step on_ack_timeout
run_timeouts_failed zero s f = refl
run_timeouts_failed (suc n) s f = ground (arith, run_timeouts_failed n s)

timeout_step :
    (s : Session)
    → s.state ≡ waiting_ack
    → s.retry_count < s.max_retries
    → s.max_retries < 2 ^ 32
    → step ack_timeout s ≡ record s {
      retry_count = s.retry_count + 1;
      state = if leb s.max_retries (s.retry_count + 1) then failed else waiting_ack;
    }
unfolding step on_ack_timeout
timeout_step s w below small = ground arith

-- With no frame between them, `n` timeouts fail a waiting session exactly if they bring the retry
-- count to the limit, and otherwise leave it waiting; no more retries are counted than the limit.
pub run_timeouts :
    (n : ℕ) (s : Session)
    → s.state ≡ waiting_ack
    → s.retry_count < s.max_retries
    → s.max_retries < 2 ^ 32
    → let t = run (replicate n ack_timeout) s in
      (t.state ≡ (if leb s.max_retries (s.retry_count + n) then failed else waiting_ack))
      × (t.retry_count ≡ min (s.retry_count + n) s.max_retries)
unfolding run
run_timeouts zero s w below small = ground arith
run_timeouts (suc n) s w below small =
    let s' = record s { retry_count = s.retry_count + 1 } in
    ground (
      arith,
      timeout_step s,
      run_timeouts n s',
      run_timeouts_failed n (record s' { state = failed }),
    )

-- The event neither sends an acknowledgement of either kind nor receives a clear-call.
abbrev pub IsQuiet : Event → Type 0
IsQuiet (tx control) = (tests control control_ack ≡ false) × (tests control control_nack ≡ false)
IsQuiet (rx frame) = tests frame.control control_clear_call ≡ false
IsQuiet ack_timeout = Unit

step_failed : (e : Event) (s : Session) → IsQuiet e → s.state ≡ failed → (step e s).state ≡ failed
unfolding step on_tx_frame on_rx_frame on_ack_timeout
step_failed (tx control) s q f = ground arith
step_failed (rx frame) s q f = ground arith
step_failed ack_timeout s q f = ground arith

-- A failed session stays failed through every sequence of events in which no acknowledgement of
-- either kind is sent and no clear-call is received.
pub run_failed :
    (es : List Event) (s : Session) → All IsQuiet es → s.state ≡ failed → (run es s).state ≡ failed
unfolding run
run_failed [] s q f = f
run_failed (e ∷ es) s q f = run_failed es (step e s) q.1 (step_failed e s q.0 f)

-- An inbound frame establishes a session that was not established exactly if it is an ACK, and
-- no NACK, for the packet that was sent last and the session has not failed; it then clears the
-- retry count.
pub on_rx_frame-established :
    (f : Frame) (s : Session)
    → s.state ≢ established
    → let t = on_rx_frame f s in
      (t.state ≡ established) ↔ (
        (tests f.control control_ack ≡ true)
        × (tests f.control control_nack ≡ false)
        × (control_packet_id f.control ≡ s.local_packet_id)
        × (s.state ≢ failed)
        × (t.retry_count ≡ 0))
unfolding on_rx_frame
on_rx_frame-established f s n = (λ h. ground arith, λ h. ground arith)
