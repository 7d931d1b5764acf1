-- ===== src/Crates.antt =====
-- What the program uses of third-party packages: for each a record of the functions it calls, with
-- the documented behaviour that it relies on, and a concrete value that meets it.
pub mod Bytes
pub mod Crc
pub mod Content
pub mod LinkedMap
pub mod Stream
pub mod Memmem
pub mod Codec
