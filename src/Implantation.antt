-- ===== src/Implantation.antt =====
-- Functions/implantation.c.
pub mod Delete
pub mod Move
pub mod Patch
