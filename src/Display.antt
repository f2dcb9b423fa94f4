-- ===== src/Display.antt =====
-- What the program prints.
pub mod Item
pub mod Header
pub mod Sections
pub mod Symbols
pub mod Relocs
pub mod Contents
