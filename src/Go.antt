-- ===== src/Go.antt =====
-- The parts of Go and its standard library that the program computes with.
pub mod Int64
pub mod Utf8
pub mod CaseRange
pub mod LowerTable
pub mod FoldTable
pub mod Strings
pub mod Ascii
pub mod Maps
pub mod Sort
pub mod Value
pub mod Strconv
pub mod Time
pub mod Filepath
pub mod Cleaned
pub mod Os
