-- ===== src/Investigate/Text.antt =====
-- openqa_llm_investigate/text.py
pub mod Classes
pub mod Credentials
pub mod Redact
pub mod Lines
pub mod Commands
pub mod Died
pub mod Search
pub mod Summary
pub mod Noise
pub mod Polls
pub mod Condense
pub mod Bounds
