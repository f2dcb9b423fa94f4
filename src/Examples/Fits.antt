-- ===== src/Examples/Fits.antt =====
-- The theorem on the fields and counts after a run, at a file that is copied, moved and stripped.
use projet_prog.Common.{List, [], ◌∷◌}
use projet_prog.Runner.{Command, copy, delete, move_text}
use projet_prog.Fits.{Fits}

abbrev options : List Command
options = copy ∷ move_text 4096 ∷ delete ∷ []
