-- ===== src/Tests.antt =====
-- Runs on concrete inputs: one child for each part of the program.
mod Protocol
mod Joint
mod Monitor
mod CanTiming
mod Screen
mod Display
mod Ui
mod Log
mod Queue
mod App
mod Fdcan
mod Send
mod Transfer
mod Board
