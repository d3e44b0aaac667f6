-- ===== src/Smartcard/Atr.antt =====
-- The answer to reset on the reader's queue, and a memory read behind it.
use coin_line_emu.Base.{
  ℕ, zero, suc, ◌+◌, ◌*◌, ◌/◌, ◌%◌, ◌<◌, ◌≤◌, ◌≡◌, refl, sym, subst, ◌∙◌, ap, true, false, not,
  ◌&&◌, List, [], ◌∷◌, ◌++◌, arith, All, bit_and, length, get_or, replicate, ◌==◌, if◌then◌else◌,
}
use coin_line_emu.Base.Text.{is_empty, text_eq}
use coin_line_emu.Smartcard.{
  Smartcard, memory_name, insert_card_at, notify_reset, read_fifo, write_command,
}

-- What reads at these cycles return.
unfoldable pub reads : List ℕ → Smartcard → List ℕ
reads [] m = []
reads (cycle ∷ cycles) m = let r = read_fifo cycle m in r.1 ∷ reads cycles r.0

-- The first `n` bytes of a queue that yields 0xff where it is empty.
unfoldable pub answer : List ℕ → ℕ → List ℕ
answer bs zero = []
answer [] (suc n) = 0xff ∷ answer [] n
answer (b ∷ bs) (suc n) = b ∷ answer bs n

-- The card is there, its answer is still to come, and the queue is empty.
abbrev Waiting : Smartcard → Type 0
Waiting m = (m.card_present ≡ true) × (m.atr_enqueued ≡ false) × (m.rx ≡ [])

reads_early :
    (early late : List ℕ) (m : Smartcard)
    → All (λ c. c < m.block_until_cycle) early
    → reads (early ++ late) m ≡ replicate (length early) 0xff ++ reads late m
unfolding reads read_fifo
reads_early [] late m h = refl
reads_early (c ∷ cs) late m h = ground (arith, h.0, reads_early cs late m h.1)

reads_queued :
    (cycles : List ℕ) (block : ℕ) (m : Smartcard)
    → m.card_present ≡ true
    → m.atr_enqueued ≡ true
    → m.block_until_cycle ≡ block
    → All (λ c. block ≤ c) cycles
    → reads cycles m ≡ answer m.rx (length cycles)
unfolding reads read_fifo answer
reads_queued [] block m p e b h = refl
reads_queued (c ∷ cs) block m p e b h =
    let r = read_fifo c m in
    let here = h.0 in
    let rest =
      reads_queued cs block r.0 (ground (arith, p)) (ground (arith, e)) (ground (arith, b)) h.1 in
    ground (arith, rest, here, p, e, b)

reads-Waiting :
    (cycles : List ℕ) (block : ℕ) (m : Smartcard)
    → Waiting m
    → m.block_until_cycle ≡ block
    → All (λ c. block ≤ c) cycles
    → reads cycles m ≡ answer m.fixture.atr (length cycles)
unfolding reads read_fifo answer
reads-Waiting [] block m w b h = refl
reads-Waiting (c ∷ cs) block m w b h =
    let r = read_fifo c m in
    let here = h.0 in
    let present = w.0 in
    let to_come = w.1 in
    let empty = w.2 in
    let rest =
      reads_queued cs block r.0 (ground (arith, present))
        (ground (arith, present, to_come, here, b)) (ground (arith, b)) h.1 in
    ground (arith, rest, here, present, to_come, empty, b)

reads_answer :
    (early late : List ℕ) (ready : ℕ) (m : Smartcard)
    → Waiting m
    → m.block_until_cycle ≡ ready
    → All (λ c. c < ready) early
    → All (λ c. ready ≤ c) late
    → reads (early ++ late) m ≡ replicate (length early) 0xff ++ answer m.fixture.atr (length late)
reads_answer early late ready m w b before behind =
    reads_early early late m (subst (λ r. All (λ c. c < r) early) (sym b) before)
    ∙ ap (λ (out : List ℕ). replicate (length early) 0xff ++ out)
        (reads-Waiting late ready m w b behind)

-- With the clock `hz`, not 0, and no wrap of the cycle counter: behind an insertion, reads before
-- the delay of the fixture return 0xff, and the reads from then on return the answer's bytes in
-- order, and 0xff when all are read.
pub insert_card_at-reads :
    (cycle hz : ℕ) (early late : List ℕ) (m : Smartcard)
    → 0 < hz
    → cycle + m.fixture.atr_delay_us * (hz / 1000000) < 18446744073709551616
    → All (λ c. c < cycle + m.fixture.atr_delay_us * (hz / 1000000)) early
    → All (λ c. cycle + m.fixture.atr_delay_us * (hz / 1000000) ≤ c) late
    → reads (early ++ late) (insert_card_at cycle hz m)
      ≡ replicate (length early) 0xff ++ answer m.fixture.atr (length late)
unfolding insert_card_at
insert_card_at-reads cycle hz early late m h fits before behind =
    reads_answer early late (cycle + m.fixture.atr_delay_us * (hz / 1000000))
      (insert_card_at cycle hz m) (refl, refl, refl) (ground arith) before behind

-- A reset with a card in place, at the clock that the insertion stored: the answer is delivered
-- again, behind the same delay.
pub notify_reset-reads :
    (cycle : ℕ) (early late : List ℕ) (m : Smartcard)
    → m.card_present ≡ true
    → cycle + m.fixture.atr_delay_us * (m.cpu_hz / 1000000) < 18446744073709551616
    → All (λ c. c < cycle + m.fixture.atr_delay_us * (m.cpu_hz / 1000000)) early
    → All (λ c. cycle + m.fixture.atr_delay_us * (m.cpu_hz / 1000000) ≤ c) late
    → reads (early ++ late) (notify_reset cycle m)
      ≡ replicate (length early) 0xff ++ answer m.fixture.atr (length late)
unfolding notify_reset
notify_reset-reads cycle early late m present fits before behind =
    let m1 = notify_reset cycle m in
    let kept : m1.fixture.atr ≡ m.fixture.atr = ground (arith, present) in
    reads_answer early late (cycle + m.fixture.atr_delay_us * (m.cpu_hz / 1000000)) m1
      (ground (arith, present), ground (arith, present), ground (arith, present))
      (ground (arith, present)) before behind
    ∙ ap (λ (bs : List ℕ). replicate (length early) 0xff ++ answer bs (length late)) kept

is_empty-length : (bs : List ℕ) → 0 < length bs → is_empty bs ≡ false
is_empty-length [] h = absurd (omega arith)
is_empty-length (b ∷ bs) h = refl

-- A card that may take commands and waits for one, with an empty queue.
abbrev pub Ready : Smartcard → Type 0
Ready m =
    (m.card_present ≡ true)
    × (m.fixture.requires_authorization && not m.authorized ≡ false)
    × (text_eq m.fixture.protocol memory_name ≡ true)
    × (m.cmd_phase ≡ false)
    × (m.atr_enqueued ≡ true)
    × (m.rx ≡ [])

-- On a ready card with a memory of less than 2 ^ 32 bytes, the two bytes of a read command put
-- the byte at the address, taken modulo the size, on the queue, where the next read finds it; the
-- card is ready again. Any other first byte leaves the queue empty.
pub write_command-read_fifo :
    (op address cycle : ℕ) (m : Smartcard)
    → Ready m
    → 0 < length m.fixture.memory
    → length m.fixture.memory < 4294967296
    → m.block_until_cycle ≤ cycle
    → let r = read_fifo cycle (write_command address cycle (write_command op cycle m)) in
      (r.1 ≡ (
        if bit_and op 0xf0 == 0xb0
        then get_or m.fixture.memory (address % length m.fixture.memory) 0
        else 0xff))
      × Ready r.0
unfolding write_command read_fifo
write_command-read_fifo op address cycle m ready some_memory bounded late =
    let nonempty = is_empty-length m.fixture.memory in
    let (present, allowed, named, idle_phase, delivered, empty) = ready in
    let wrapped : length m.fixture.memory % 4294967296 ≡ length m.fixture.memory =
      omega (arith, bounded) in
    ground (arith, nonempty, wrapped, present, allowed, named, idle_phase, delivered, empty)
