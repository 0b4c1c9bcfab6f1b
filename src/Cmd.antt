-- ===== src/Cmd.antt =====
-- cmd/main.go: the program's entry point.
pub mod Options
pub mod Main
