-- ===== src/Reaper.antt =====
-- s390x-qemu-zombie-reaper.py
pub mod Machine
pub mod Config
pub mod Exec
pub mod Ssh
pub mod Workers
pub mod Wait
pub mod RebootState
pub mod Hmc
pub mod Recover
pub mod Check
pub mod Main
pub mod DryRun
pub mod Tests
