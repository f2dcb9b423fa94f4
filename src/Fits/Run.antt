-- ===== src/Fits/Run.antt =====
-- A whole run of `main` keeps a structure that fits.
use projet_prog.Fits.{Fits}
