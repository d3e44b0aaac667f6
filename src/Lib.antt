-- ===== src/Lib.antt =====
-- A library of verified models of the peripheral logic of the terminal emulator.
--
-- The emulator boots the terminal's firmware on a Z180; each peripheral of the board is a C++ model
-- class under src/mame/coinline, free of MAME types, that a thin device wrapper and the board state
-- (millennium_state.cpp) call from its port handlers. But for the terminal processor, whose board side
-- drives the microcontroller, the models do not call one another: the board state and the scenarios
-- order their calls, and the theorems therefore quantify over every sequence of calls. This library
-- translates those model classes. A method that changes its object is a function to the new object,
-- next to what it returns or emits.
--
--   Base           numbers, Booleans, lists, machine words, bit operations
--   Microwire      src/mame/coinline/millennium_microwire_93c66 and millennium_eprm_command.h: the
--                  serial EEPROM and the command encoder; Protocol has the line changes and the
--                  host's clocking of bits, Recognise the write-enable bodies, Invariant and
--                  Protection what holds of every run, Session whole reads and writes on the wire
--   Ncc            src/mame/coinline/millennium_modem_ncc: framing (Codec, Strict) and Session
--   Supervision    src/mame/coinline/millennium_supervision_fsm: disconnect supervision; Once,
--                  Cutoff and Reversal
--   Coin           src/mame/coinline/millennium_coin_model: the coin validator; Pulses and Escrow
--   Keypad         src/mame/coinline/millennium_keypad_model: key matrix, hook and milestone; Matrix
--                  and Hook
--   Modem          src/mame/coinline/millennium_modem_model: line state, transcript, fixture replay;
--                  Line, and Printing and Replay for texts of hexadecimal lines
--   Card           src/mame/coinline/millennium_card_model: magnetic cards; Fixture reads the JSON
--                  text, Load has its check byte, Track2 the decoder, Swipe the bits in time
--   Smartcard      src/mame/coinline/millennium_smartcard_model: chip cards; Fixture reads the JSON
--                  text with the readers of Card, Atr the reader's queue, Negotiate the protocols
--   Nvram          src/mame/coinline/millennium_nvram_model: battery-backed stores; Base64, Envelope
--                  the JSON text with its checksum, State the saved blob, Loading and Checksum the proofs
--   Am8048         src/mame/coinline/millennium_am8048_core: the terminal processor. Decode names the
--                  instructions, Execute has their bodies, Run the interrupts, the timer and
--                  step_cycles; Cycles, Surrounding, Invariant, Stack, Returns, Flags, Decimal and Timer have the proofs
--   Pcd            src/mame/coinline/millennium_pcd3349a_contract: the board side of the terminal
--                  processor, with the microcontroller of Am8048 behind its callbacks. Wire has the
--                  key opcodes and their packing, Host the operations; Service, Queues, Packing, Sound
--                  and History have the proofs
--   Terminal       src/mame/coinline/millennium_terminal_peripherals_model: ring alerter, card
--                  alarm, cash box; Store the EEPROM, DataJack and Health
--   Vfd            src/mame/coinline/millennium_vfd_model: the display. Dots has the dot plane, Motion the
--                  cursor, Glyph and Write the bytes of the firmware, Snapshot and Fixture the texts. Read,
--                  Agree, Rebuild, Shows and Changes relate the dots to the cells, Grid has the sizes,
--                  Panels, Sound and Firmware every run; Waiting and Escape the escape sequences, Typing
--                  and Text a written text, Scroll, Busy, and ReadBack, Bracket and Own the snapshot;
--                  ElevenLine has millennium_vfd_profile_model and millennium_vfd_cell_utf8.h
--   Sha256         src/mame/coinline/millennium_sha256.cpp: the hash of the firmware check; Reference the
--                  hash of a padded message, Padding, Blocks, Whole and Streaming
--   Mach           src/mame/coinline/millennium_mach_pio.cpp: where an address of the upper memory leads
--   Voice          src/mame/coinline/millennium_voice_synthesis_model: the task of a voice prompt; Phrase
--                  has millennium_voiceware_phrase_lookup.cpp, Phrase.Search its proofs
--   UserIo         src/mame/coinline/millennium_user_io_overlay_model: who consumes a key
--   Z180           src/mame/coinline/millennium_z180_mmu.cpp and millennium_z180_register_math.h;
--                  Translation, and Boot for millennium_z180_boot_init_model
--   Startup        src/mame/coinline/millennium_rtos_startup_model: the scheduler's start; Flags
--   Security       src/mame/coinline/millennium_security_model: the debounced security lines
--   Examples       tests, and the theorems at concrete inputs
--
-- Unsigned integers are natural numbers with the wrap-around of their width written out. Where the
-- code masks low bits or shifts, the models write remainders, quotients and products by powers of
-- two, and `bit_or`, `bit_and` and `bit_xor` elsewhere. Texts are lists of bytes (Base/Text). A
-- division by zero that the code does not exclude is a missing result. Every loop is
-- bounded by a count or a list, but for the walk over the interface bytes of an answer to reset
-- (Smartcard.interface_loop): its fuel is the length of the answer, and each turn but the last moves
-- the cursor on, so it is enough; the digits of a decimal number (Nvram.Envelope.decimal_from), whose
-- fuel is the number; the loop of the hash (Sha256.update_loop), whose fuel is the number
-- of bytes, since each turn takes one at least when they are fewer than 2 ^ 32; and step_cycles of the microcontroller (Am8048.Run.step_loop), whose fuel is the
-- number of cycles, since each turn spends at least one. The microcontroller's callbacks are a record
-- of functions on a surrounding object of any type; those that read do not change that object, as in
-- millennium_pcd3349a_contract.cpp, which implements them. Other callbacks and emitted events are
-- lists of values, in the order of the calls.
--
-- Not modelled: the MAME driver and its devices (millennium_state.cpp, the wrappers, third-party
-- code), the trace and evidence writers, and the model classes of the audio and the
-- voice decoder, the board profile and a few small ones.
pub mod Base
pub mod Microwire
pub mod Ncc
pub mod Supervision
pub mod Coin
pub mod Keypad
pub mod Am8048
pub mod Nvram
pub mod Pcd
pub mod Terminal
pub mod UserIo
pub mod Mach
pub mod Voice
pub mod Vfd
pub mod Z180
pub mod Startup
pub mod Security
pub mod Sha256
pub mod Modem
pub mod Card
pub mod Smartcard
mod Examples
