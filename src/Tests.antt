-- ===== src/Tests.antt =====
-- The theorems at concrete inputs.
mod States
mod Locks
mod Release
mod Requests
mod Commits
mod Invariants
mod Deadlock
mod Reads
mod Texts
mod Cases
mod Program
mod Sites
mod Runs
