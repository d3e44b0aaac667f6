-- ===== src/Voice/Phrase/Search.antt =====
-- Which message of the voice memory a phrase is.
use coin_line_emu.Base.{
  ℕ, zero, suc, ◌+◌, ◌-◌, ◌*◌, ◌%◌, ◌<◌, ◌≤◌, ◌≡◌, Bool, true, ◌&&◌, List, leb, ◌==◌, if◌then◌else◌,
  length, get_or,
}
use coin_line_emu.Voice.Phrase.{window_bytes, Place, Lookup, chip_base_of}

-- A segment has a directory: the four marks, and at most 128 messages.
abbrev pub has_directory : List ℕ → ℕ → Bool
has_directory rom abs0 =
    get_or rom (abs0 + 1) 0 == 0x5a
    && get_or rom (abs0 + 2) 0 == 0xa5
    && get_or rom (abs0 + 3) 0 == 0x69
    && get_or rom (abs0 + 4) 0 == 0x55
    && leb (get_or rom abs0 0) 127

-- The messages of a segment, which stores their number less one.
abbrev pub messages_at : List ℕ → ℕ → ℕ
messages_at rom abs0 = if has_directory rom abs0 then get_or rom abs0 0 + 1 else 0

-- The messages of `n` segments from `seg` on.
abbrev pub messages : List ℕ → ℕ → ℕ → ℕ → ℕ
messages rom base seg zero = 0
messages rom base seg (suc n) =
    messages_at rom (base + seg * window_bytes) + messages rom base (seg + 1) n

-- Segment `s` is in the memory, and `index` is one of its messages.
pub record IsMessage (rom : List ℕ) (base s index : ℕ) : Type 0 where
  pub inside : base + s * window_bytes + 6 ≤ length rom
  pub directory : has_directory rom (base + s * window_bytes) ≡ true
  pub indexed : index < get_or rom (base + s * window_bytes) 0 + 1

-- A place that is message `phrase`, counted from segment `seg` on.
abbrev IsFound : List ℕ → ℕ → ℕ → ℕ → Place → Type 0
IsFound rom base seg phrase place =
    (seg ≤ place.segment)
    × IsMessage rom base place.segment place.msg_index
    × (messages rom base seg (place.segment - seg) + place.msg_index ≡ phrase)

-- The byte at which a message starts, from its entry in the directory.
abbrev pub start_of : List ℕ → ℕ → ℕ → ℕ
start_of rom abs0 index =
    (get_or rom (abs0 + (5 + 2 * index)) 0 * 256 + get_or rom (abs0 + (5 + 2 * index) + 1) 0) * 2

-- What the lookup reports of a message.
abbrev pub report : List ℕ → ℕ → ℕ → ℕ → Lookup
report rom base seg index = record {
  upd_sample_index = index;
  resolved_segment_index = seg;
  segment_base_abs = base + seg * window_bytes;
  msg_count = get_or rom (base + seg * window_bytes) 0 + 1;
  phrase_msg_index = index;
}

-- The entry of message `index` and the first byte of the message are in the memory, and that byte is 0.
abbrev pub IsStored : List ℕ → ℕ → ℕ → Type 0
IsStored rom abs0 index =
    (abs0 + 7 + 2 * index ≤ length rom)
    × (abs0 + start_of rom abs0 index + 1 < length rom)
    × (get_or rom (abs0 + start_of rom abs0 index) 0 ≡ 0)

-- The result is the report on message `phrase` of the chip that the latch selects; the message is
-- stored, in the segment that the latch selects.
abbrev pub Finds : List ℕ → ℕ → ℕ → Lookup → Type 0
Finds rom latch phrase found =
    let base = chip_base_of latch in
    let index = found.phrase_msg_index in
    IsMessage rom base (latch % 8) index
    × (messages rom base 0 (latch % 8) + index ≡ phrase)
    × IsStored rom (base + latch % 8 * window_bytes) index
    × (found ≡ report rom base (latch % 8) index)

abbrev in_segment : ℕ → ℕ → Place
in_segment s index = record { segment = s; msg_index = index }
