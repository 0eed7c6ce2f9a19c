-- ===== src/Examples.antt =====
-- The theorems at concrete inputs, where their hypotheses hold.
mod Jobs
mod Access
mod Streaming
mod Services
mod Media
mod Pages
