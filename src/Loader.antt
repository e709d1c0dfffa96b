-- ===== src/Loader.antt =====
-- core/hle/loader: the parsers of the game's files. Each reads through a byte source; a directory of
-- names and ranges is checked when it is opened or decoded, before anything is read by it.
pub mod ByteSource
pub mod Fixtures
pub mod Exefs
pub mod Romfs
pub mod Npdm
pub mod Nso
pub mod Nca
