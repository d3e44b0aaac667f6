-- ===== src/Coin/Escrow.antt =====
-- The coins of a run: insertions, collections and refunds, and a validator that is jammed or disabled.
use coin_line_emu.Base.{
  ℕ, ◌+◌, ◌≤◌, ◌≡◌, refl, Bool, true, false, not, List, [], ◌∷◌, arith, bit_of, tests, All,
}
use coin_line_emu.Coin.{
  Coin, Command, reset_fault, wake, enable_acceptance, collect_escrow, refund_escrow, learn_escrow,
  begin_insert_cents, protocol_handle_command, inject_jam, inject_reject_route, write_control,
  pulse_line, read_status, protocol_note_timeout, pulses_for_valid_denom, reset,
}
use coin_line_emu.Base.Int.{ℤ, is_positive}

-- The calls between two resets.
pub data Op : Type 0 where
  insert : ℤ → ℕ → ℕ → Op
  command : Command → Op
  jam : Op
  reject : Op
  control : ℕ → Op
  status : ℕ → Op
  note_timeout : Op

unfoldable pub apply : Op → Coin → Coin
apply (insert cents cycle hz) m = (begin_insert_cents cents cycle hz m).0
apply (command cmd) m = (protocol_handle_command cmd m).0
apply jam m = inject_jam m
apply reject m = inject_reject_route m
apply (control byte) m = write_control byte m
apply (status cycle) m = (read_status cycle m).0
apply note_timeout m = protocol_note_timeout m

-- 1 for an insertion that is accepted.
unfoldable pub accepted : Op → Coin → ℕ
accepted (insert cents cycle hz) m = bit_of (begin_insert_cents cents cycle hz m).1
accepted _ m = 0

-- 1 for a collection or a refund that is carried out.
unfoldable pub settled : Op → Coin → ℕ
settled (command collect_escrow) m = bit_of (protocol_handle_command collect_escrow m).2
settled (command refund_escrow) m = bit_of (protocol_handle_command refund_escrow m).2
settled _ m = 0

unfoldable pub run : List Op → Coin → Coin
run [] m = m
run (o ∷ os) m = run os (apply o m)

unfoldable pub total : (Op → Coin → ℕ) → List Op → Coin → ℕ
total f [] m = 0
total f (o ∷ os) m = f o m + total f os (apply o m)

-- A coin is in escrow.
abbrev pub held : Coin → ℕ
held m = bit_of (is_positive m.escrow_cents)

step_held : (o : Op) (m : Coin) → settled o m + held (apply o m) ≤ accepted o m + held m
unfolding apply accepted settled begin_insert_cents pulses_for_valid_denom protocol_handle_command
    inject_jam inject_reject_route write_control read_status pulse_line protocol_note_timeout
step_held (insert cents cycle hz) m = ground arith
step_held _ m = ground arith

run-held :
    (os : List Op) (m : Coin) → total settled os m + held (run os m) ≤ total accepted os m + held m
unfolding run total
run-held [] m = omega arith
run-held (o ∷ os) m = omega (arith, step_held o m, run-held os (apply o m))

-- Over any sequence of calls from a reset, the collections and refunds that are carried out are no
-- more than the insertions that were accepted, and one fewer while a coin is in escrow.
pub settled-le-accepted :
    (os : List Op) (m : Coin)
    → total settled os (reset m) + held (run os (reset m)) ≤ total accepted os (reset m)
unfolding reset
settled-le-accepted os m = omega (arith, run-held os (reset m))

-- What keeps coins out of the validator.
pub data Closure : Type 0 where
  by_jam by_disable : Closure

abbrev pub is_closed : Closure → Coin → Bool
is_closed by_jam m = m.jam_latched
is_closed by_disable m = m.disabled

-- The calls that may end a closure.
abbrev pub is_opening : Closure → Op → Bool
is_opening by_jam (command reset_fault) = true
is_opening by_jam (command learn_escrow) = true
is_opening by_jam (control byte) = tests byte 0x02
is_opening by_disable (command wake) = true
is_opening by_disable (command enable_acceptance) = true
is_opening by_disable (control byte) = not (tests byte 0x01)
is_opening _ _ = false

step_closed :
    (c : Closure) (o : Op) (m : Coin)
    → is_opening c o ≡ false
    → is_closed c m ≡ true
    → (is_closed c (apply o m) ≡ true) × (accepted o m ≡ 0)
unfolding apply accepted begin_insert_cents protocol_handle_command inject_jam inject_reject_route
    write_control read_status pulse_line protocol_note_timeout
step_closed by_jam (insert cents cycle hz) m n j = ground arith
step_closed by_jam _ m n j = ground arith
step_closed by_disable (insert cents cycle hz) m n j = ground arith
step_closed by_disable _ m n j = ground arith

-- A validator that is closed stays closed and accepts no insertion, over any sequence of calls without
-- an opening one: for a latched jam, those are a fault reset, an escrow learn and a control write with
-- bit 1 set; for a disabled validator, a wake, an enabling and a control write with bit 0 clear.
pub run-closed :
    (c : Closure) (os : List Op) (m : Coin)
    → All (λ o. is_opening c o ≡ false) os
    → is_closed c m ≡ true
    → (is_closed c (run os m) ≡ true) × (total accepted os m ≡ 0)
unfolding run total
run-closed c [] m n j = (j, refl)
run-closed c (o ∷ os) m n j =
    let (still, refused) = step_closed c o m n.0 j in
    let (last, none_in) = run-closed c os (apply o m) n.1 still in (last, omega arith)
