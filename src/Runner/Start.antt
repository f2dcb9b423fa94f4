-- ===== src/Runner/Start.antt =====
-- The start of `main` of ARM_runner.c, which opens the two files that the command line names.
use projet_prog.Common.{
  ℕ, ◌≡◌, refl, Bool, false, ◌&&◌, Option, none, some, List, [], ◌∷◌, All, Bool-cases, inl, inr,
  if◌then◌else◌,
}
use projet_prog.Stdio.{Stream, Dest, Outcome, exit}
use projet_prog.Implantation.Move.{same_name}
use projet_prog.Writer.{TempTab}
use projet_prog.Display.Item.{Item}
use projet_prog.Runner.{Command, main}

abbrev pub source_flag : List ℕ
source_flag = b'-' ∷ b'-' ∷ b's' ∷ b'o' ∷ b'u' ∷ b'r' ∷ b'c' ∷ b'e' ∷ []

abbrev pub dest_flag : List ℕ
dest_flag = b'-' ∷ b'-' ∷ b'd' ∷ b'e' ∷ b's' ∷ b't' ∷ []

-- f_source and f_dest; `none` is NULL.
abbrev pub Files : Type 0
Files = Option Stream × Option Dest

-- The file system: access(name, F_OK) == 0, and fopen to read and to write.
module _ (accessible : List ℕ → Bool) (open_source : List ℕ → Option Stream)
    (open_dest : List ℕ → Option Dest) where
  -- The `while` over the arguments left; a flag takes the argument behind it.
  unfoldable pub find_files : List (List ℕ) → Files → Files
  find_files [] files = files
  find_files (flag ∷ []) files = files
  find_files (flag ∷ name ∷ args) (source, dest) =
      let with_dest = find_files args (source, open_dest name) in
      let with_source = find_files args (open_source name, dest) in
      let with_none = find_files (name ∷ args) (source, dest) in
      if same_name flag dest_flag
      then with_dest
      else if same_name flag source_flag && accessible name
      then with_source
      else with_none

  -- Without a source the program ends; otherwise it goes on with the options.
  unfoldable pub start :
      (List TempTab → List TempTab)
      → List (List ℕ)
      → List Command
      → Outcome (List Item × Option Dest)
  start qsort args commands =
      let files = find_files args (none, none) in
      elim files.0 [ none ↦ exit | some source ↦ main qsort commands source files.1 ]

  -- Not the flag of a source, or not an accessible name.
  find_files_without_source :
      (args : List (List ℕ)) (dest : Option Dest)
      → All (λ a. same_name a source_flag ≡ false) args
      → (find_files args (none, dest)).0 ≡ none
  unfolding find_files
  find_files_without_source [] dest w = refl
  find_files_without_source (flag ∷ []) dest w = refl
  find_files_without_source (flag ∷ name ∷ args) dest (p, w) =
      elim (Bool-cases (same_name flag dest_flag)) [
        | inl q ↦ rw (q, find_files) (find_files_without_source args (open_dest name) w.1)
        | inr q ↦ rw (q, p, find_files) (find_files_without_source (name ∷ args) dest w)
      ]

  -- Whatever the file system holds, a command line without --source makes the program exit.
  start_without_source :
      (qsort : List TempTab → List TempTab) (args : List (List ℕ)) (commands : List Command)
      → All (λ a. same_name a source_flag ≡ false) args
      → start qsort args commands ≡ exit
  unfolding start
  start_without_source qsort args commands w = rw (find_files_without_source args none w, start)
