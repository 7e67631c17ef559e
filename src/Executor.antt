-- ===== src/Executor.antt =====
-- firmware/boards/executor.py: the physical deployment to an SD card, up to the manual power cycle
-- and behind it.
pub mod Session
pub mod Steps
pub mod Checks
pub mod Media
pub mod Gate
pub mod Linux
pub mod Listed
pub mod Rules
pub mod History
pub mod Recorded
pub mod Calls
pub mod Selected
pub mod Quiet
pub mod Guarded
pub mod Steady
pub mod Verifier
pub mod Ready
pub mod Verified
pub mod Ended
