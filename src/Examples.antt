-- ===== src/Examples.antt =====
-- Tests on concrete inputs, and the theorems at inputs that meet their hypotheses.
mod Eeprom
mod Framing
mod Lines
mod Panel
mod Cards
mod Stores
mod Core
mod Board
mod Display
mod Firmware
