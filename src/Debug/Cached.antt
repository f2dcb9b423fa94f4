-- ===== src/Debug/Cached.antt =====
-- The cached answer of the macro `is_debugged`.
use projet_prog.Common.{◌≡◌, refl, subst, ℕ, List, Option, some, Bool, true, false, length}
use projet_prog.Stdio.{Outcome, ok}
use projet_prog.Debug.{is_debugged, Cache, cached}
use projet_prog.Debug.Order.{IsSorted}
use projet_prog.Debug.Search.{Answers, found, missing, is_debugged-Answers}

abbrev pub unused : Cache
unused = record { is_debugged_first = true; is_debugged_result = false }

abbrev used : Bool → Cache
used b = record { is_debugged_first = false; is_debugged_result = b }

has_answer :
    (name : List ℕ) (files : List (List ℕ)) (o : Option (Outcome Bool))
    → Answers name files 0 (length files) o
    → (b : Bool) × (o ≡ some (ok b))
has_answer name files o (found w) = (true, refl)
has_answer name files o (missing w) = (false, refl)

-- At its first use, over a sorted table, the macro tells whether the name stands in the table; from
-- then on it gives the same answer, whatever is added to the table.
pub cached_stays :
    (name : List ℕ) (files later : List (List ℕ))
    → IsSorted files
    → (b : Bool) × Answers name files 0 (length files) (some (ok b))
      × (cached name files unused ≡ some (ok (b, used b)))
      × (cached name later (used b) ≡ some (ok (b, used b)))
unfolding cached
cached_stays name files later s =
    let answers = is_debugged-Answers name files s in
    let (b, e) = has_answer name files (is_debugged name files) answers in
    (b, subst (Answers name files 0 (length files)) e answers, rw (e, cached), refl)
