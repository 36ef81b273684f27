-- ===== src/Prelude/Io.antt =====
-- The errors of Go's io that the readers return.
pub data IoError : Type 0 where
  eof unexpected_eof : IoError
