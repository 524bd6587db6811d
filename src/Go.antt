-- ===== src/Go.antt =====
-- What the program uses of the Go language and its standard library.
pub mod Text
pub mod Error
pub mod Json
pub mod Effect
pub mod Scan
pub mod Parse
