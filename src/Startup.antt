-- ===== src/Startup.antt =====
-- cmd/main.go: the start-up of the process.
pub mod Options
pub mod Steps
pub mod Main
pub mod Takes
pub mod Laws
pub mod Client
