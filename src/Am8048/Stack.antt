-- ===== src/Am8048/Stack.antt =====
-- The return stack in the memory, as the list of its frames.
use coin_line_emu.Base.Bits.{bit_or_high_field}
use coin_line_emu.Base.{
  ℕ, zero, suc, ◌+◌, ◌*◌, ◌/◌, ◌%◌, ◌<◌, ◌≤◌, ◌≡◌, ◌≢◌, sym, subst, ap, ◌∙◌, List, [], ◌∷◌, arith,
  bit_or, u8, u16, length, length-set, get_or, get_or-set_self, get_or-set_ne, set, take, All,
}
use coin_line_emu.Am8048.{Cpu, write_ram, frame_addr, push_state}
use coin_line_emu.Am8048.Invariant.{WellFormed}

-- The word of a frame.
abbrev pub word : List ℕ → ℕ → ℕ
word ram k = get_or ram (k * 2 + 9) 0 * 256 + get_or ram (k * 2 + 8) 0

-- A return address, and the upper half of the status word.
pub record Frame : Type 0 where
  pub address : ℕ
  pub status : ℕ

pub record IsFrame (f : Frame) : Type 0 where
  pub address_bound : f.address < 4096
  pub status_bound : f.status < 16

-- The frames below the pointer `sp`, the newest first; the eight frames are a ring.
abbrev pub Holds : List ℕ → ℕ → List Frame → Type 0
Holds ram sp [] = Unit
Holds ram sp (f ∷ fs) =
    (word ram ((sp + 7) % 8) ≡ f.status * 4096 + f.address) × Holds ram ((sp + 7) % 8) fs

-- The stack of a state holds the frames.
abbrev pub Represents : Cpu → List Frame → Type 0
Represents c fs = All IsFrame fs × Holds c.ram (c.psw % 8) fs

-- A write to another frame.
word-set :
    (ram : List ℕ) (s k i v : ℕ) → i ≢ k * 2 + 8 → i ≢ k * 2 + 9 → word (set ram i v) k ≡ word ram k
word-set ram s k i v low high =
    omega (arith, get_or-set_ne ram i (k * 2 + 8) v 0 low, get_or-set_ne ram i (k * 2 + 9) v 0 high)

-- A frame is written.
abbrev put_frame : List ℕ → ℕ → ℕ → ℕ → List ℕ
put_frame ram s low high = set (set ram (s * 2 + 8) low) (s * 2 + 9) high

word-put_frame_ne :
    (ram : List ℕ) (s k low high : ℕ) → k ≢ s → word (put_frame ram s low high) k ≡ word ram k
word-put_frame_ne ram s k low high ne =
    let a = word-set ram s k (s * 2 + 8) low (λ e. ne (omega arith)) (λ e. absurd (omega arith)) in
    let b =
      word-set (set ram (s * 2 + 8) low) s k (s * 2 + 9) high (λ e. absurd (omega arith))
        (λ e. ne (omega arith)) in
    b ∙ a

word-put_frame :
    (ram : List ℕ) (s low high : ℕ)
    → s < 8
    → length ram ≡ 224
    → word (put_frame ram s low high) s ≡ high * 256 + low
word-put_frame ram s low high h size =
    let ram1 = set ram (s * 2 + 8) low in
    omega (
      arith,
      get_or-set_self ram1 (s * 2 + 9) high 0 (omega (arith, length-set ram (s * 2 + 8) low)),
      get_or-set_ne ram1 (s * 2 + 9) (s * 2 + 8) high 0 (λ e. absurd (omega arith)),
      get_or-set_self ram (s * 2 + 8) low 0 (omega arith),
    )

-- The seven frames behind the one that is written stay.
Holds-put_frame :
    (n j p : ℕ) (ram : List ℕ) (s low high : ℕ) (fs : List Frame)
    → (p + j) % 8 ≡ s
    → j + n ≤ 7
    → Holds ram p fs
    → Holds (put_frame ram s low high) p (take n fs)
Holds-put_frame zero j p ram s low high fs at room held = tt
Holds-put_frame (suc n) j p ram s low high [] at room held = tt
Holds-put_frame (suc n) j p ram s low high (f ∷ fs) at room (first, rest) =
    let k = (p + 7) % 8 in
    let ne : k ≢ s = λ e. absurd (omega arith) in
    (
      word-put_frame_ne ram s k low high ne ∙ first,
      Holds-put_frame n (suc j) k ram s low high fs (omega arith) (omega arith) rest,
    )

take-IsFrame : (n : ℕ) (fs : List Frame) → All IsFrame fs → All IsFrame (take n fs)
take-IsFrame zero fs h = tt
take-IsFrame (suc n) [] h = tt
take-IsFrame (suc n) (f ∷ fs) (first, rest) = (first, take-IsFrame n fs rest)

-- What a call saves.
abbrev pub frame_of : Cpu → Frame
frame_of c = record { address = c.pc; status = c.psw / 16 }

abbrev saved : Cpu → ℕ
saved c = u16 (bit_or (c.psw / 16 * 4096) (c.pc % 4096))

saved-frame_of : (c : Cpu) → WellFormed c → saved c ≡ c.psw / 16 * 4096 + c.pc
saved-frame_of c w =
    omega
      (arith, w.psw_byte, w.pc_bound, bit_or_high_field 12 (c.psw / 16) (c.pc % 4096) (omega arith))

-- An address within the memory.
pub address_in : (x m at : ℕ) → m ≡ 224 → x ≡ at → at < 224 → x % m ≡ at
address_in x m at size same h = ap (λ (n : ℕ). x % n) size ∙ omega arith

push_state-ram :
    (c : Cpu)
    → WellFormed c
    → (push_state c).ram ≡ put_frame c.ram (c.psw % 8) (saved c % 256) (u8 (saved c / 256))
unfolding push_state write_ram
push_state-ram c w =
    let sp = frame_addr c.psw in
    let ram1 = set c.ram (u8 (sp + 0) % length c.ram) (saved c % 256) in
    let low : u8 (sp + 0) % length c.ram ≡ c.psw % 8 * 2 + 8 =
      address_in (u8 (sp + 0)) (length c.ram) (c.psw % 8 * 2 + 8) w.ram_size (omega arith)
        (omega arith) in
    let size : length ram1 ≡ 224 =
      length-set c.ram (u8 (sp + 0) % length c.ram) (saved c % 256) ∙ w.ram_size in
    let high : u8 (sp + 1) % length ram1 ≡ c.psw % 8 * 2 + 9 =
      address_in (u8 (sp + 1)) (length ram1) (c.psw % 8 * 2 + 9) size (omega arith) (omega arith) in
    ap (λ (i : ℕ). set ram1 i (u8 (saved c / 256))) high
    ∙ ap (λ (i : ℕ). set (set c.ram i (saved c % 256)) (c.psw % 8 * 2 + 9) (u8 (saved c / 256))) low

push_state-psw : (c : Cpu) → WellFormed c → (push_state c).psw ≡ c.psw / 8 * 8 + (c.psw + 1) % 8
unfolding push_state
push_state-psw c w =
    omega (arith, w.psw_byte, bit_or_high_field 3 (c.psw / 8) ((c.psw + 1) % 8) (omega arith))

-- `push_state` puts the program counter and the upper half of the status word in front of the
-- frames that the stack holds, of which the eight newest are kept.
pub push_state-Represents :
    (c : Cpu) (fs : List Frame)
    → WellFormed c
    → Represents c fs
    → Represents (push_state c) (take 8 (frame_of c ∷ fs))
push_state-Represents c fs w (frames, held) =
    let s = c.psw % 8 in
    let low = saved c % 256 in
    let high = u8 (saved c / 256) in
    let ram = put_frame c.ram s low high in
    let valid : IsFrame (frame_of c) = record {
      address_bound = w.pc_bound;
      status_bound = omega (arith, w.psw_byte);
    } in
    let below : ((push_state c).psw % 8 + 7) % 8 ≡ s = omega (arith, push_state-psw c w) in
    let newest : word ram s ≡ c.psw / 16 * 4096 + c.pc = omega (
      arith,
      word-put_frame c.ram s low high (omega arith) w.ram_size,
      saved-frame_of c w,
      w.pc_bound,
      w.psw_byte,
    ) in
    let older = Holds-put_frame 7 0 s c.ram s low high fs (omega arith) (omega arith) held in
    let top : (word ram s ≡ c.psw / 16 * 4096 + c.pc) × Holds ram s (take 7 fs) = (newest, older) in
    (
      (valid, take-IsFrame 7 fs frames),
      subst (λ (m : List ℕ). Holds m ((push_state c).psw % 8) (take 8 (frame_of c ∷ fs)))
          (sym (push_state-ram c w))
          (subst (λ (k : ℕ). (word ram k ≡ c.psw / 16 * 4096 + c.pc) × Holds ram k (take 7 fs))
            (sym below) top),
    )
