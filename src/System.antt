-- ===== src/System.antt =====
-- The agent of internal/agent/agent.go against the server of cmd/mockserver/main.go: what stands in the
-- server's recorder behind a run of the loop.
pub mod Origin
pub mod Lossless
pub mod Refused
pub mod Deployed
