-- ===== src/Tests.antt =====
-- Runs of the model on concrete inputs, and each theorem with hypotheses at an input that meets
-- them.
mod Futures
mod Tasks
mod Wakes
mod Runtimes
mod Channels
mod Loops
mod Selectors
mod Sockets
mod Guards
mod Services
mod Scripts
