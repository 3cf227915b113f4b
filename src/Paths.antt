-- ===== src/Paths.antt =====
-- The lexical path operations of Go's path/filepath on Unix, and the two path guards of
-- internal/foldershare/sync.go.
pub mod Lexical
pub mod Guards
