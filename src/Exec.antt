-- ===== src/Exec.antt =====
-- internal/exec/exec.go: the commands.
pub mod Withdraw
pub mod Toml
pub mod Edit
pub mod Status
