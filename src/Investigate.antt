-- ===== src/Investigate.antt =====
-- openqa_llm_investigate
pub mod Step
pub mod Text
pub mod Failures
pub mod History
pub mod Logs
pub mod Http
pub mod Uploads
pub mod Analysis
pub mod Commits
pub mod Verdict
pub mod Tests
