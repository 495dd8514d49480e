-- ===== src/Go.antt =====
-- The parts of Go's standard library that the service computes with, over bytes.
pub mod Strings
pub mod Strconv
pub mod Fmt
pub mod Utf8
pub mod Url
pub mod Path
pub mod Float
pub mod Io
pub mod Sort
