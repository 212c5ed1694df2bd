-- ===== src/Go.antt =====
-- What the program uses of the Go language and its library: maps, memory and text.
pub mod Map
pub mod Heap
pub mod Text
pub mod Number
