-- ===== src/Debug.antt =====
-- debug.c: the sorted table of the files whose debug output is on.
pub mod Order
pub mod Search
pub mod Insert
pub mod Cached
use projet_prog.Common.{
  ℕ, zero, suc, ◌+◌, ◌-◌, ◌/◌, Option, none, some, List, [], ◌∷◌, Bool, true, false, ltb, leb, ◌==◌,
  if◌then◌else◌, get_elem?, length,
}
use projet_prog.Stdio.{Outcome, ok, exit, fault}

-- A file name is its characters. The sign of strcmp, which compares them as unsigned char.
pub data Sign : Type 0 where
  less equal greater : Sign

unfoldable pub strcmp : List ℕ → List ℕ → Sign
strcmp [] [] = equal
strcmp [] (y ∷ ys) = less
strcmp (x ∷ xs) [] = greater
strcmp (x ∷ xs) (y ∷ ys) =
    let later = strcmp xs ys in if ltb x y then less else if ltb y x then greater else later

abbrev pub max_files_number : ℕ
max_files_number = 64

-- The first `while`: the index where `name` goes. `l` holds the names from `i` on.
unfoldable pub find_place : List ℕ → List (List ℕ) → ℕ → ℕ
find_place name [] i = i
find_place name (x ∷ l) i = elim (ltb i max_files_number) [
  | true ↦ elim (strcmp x name) [ less ↦ find_place name l (suc i) | equal ↦ i | greater ↦ i ]
  | false ↦ i
]

-- The `for` and the assignment behind it: the names from `i` on move up by one place.
unfoldable pub insert_at : ℕ → List ℕ → List (List ℕ) → List (List ℕ)
insert_at zero name l = name ∷ l
insert_at (suc i) name [] = name ∷ []
insert_at (suc i) name (x ∷ l) = x ∷ insert_at i name l

-- The state is debugged_files[0 .. nb_debugged_files - 1]. The array has 64 places: moving up the
-- last of 64 names writes behind it.
unfoldable pub add_debug_to : List ℕ → List (List ℕ) → Outcome (List (List ℕ))
add_debug_to name files =
    let i = find_place name files 0 in
    if leb max_files_number i
    then ok files
    else if ltb (length files) max_files_number
    then ok (insert_at i name files)
    else fault

-- The loop of `__is_debugged`. `to` is the variable of that name plus one, so that it is never
-- negative: the candidates are those from `from` on and below `to`. `none` means that the fuel
-- ran out, and `fault` an index outside the table.
unfoldable pub search_files : ℕ → List ℕ → List (List ℕ) → ℕ → ℕ → Option (Outcome Bool)
search_files zero name files from to = none
search_files (suc fuel) name files from to =
    let middle = (from + (to - 1)) / 2 in
    elim (ltb (suc from) to) [
      | true ↦ elim (get_elem? files middle) [
        | none ↦ some fault
        | some x ↦ elim (strcmp x name) [
          | less ↦ search_files fuel name files (middle + 1) to
          | equal ↦ some (ok true)
          | greater ↦ search_files fuel name files from middle
        ]
      ]
      | false ↦
          if suc from == to
          then elim (get_elem? files from) [
            | none ↦ some fault
            | some x ↦ elim (strcmp x name) [
              | less ↦ some (ok false)
              | equal ↦ some (ok true)
              | greater ↦ some (ok false)
            ]
          ]
          else some (ok false)
    ]

-- Each round leaves fewer candidates, so one round more than there are names is enough.
unfoldable pub is_debugged : List ℕ → List (List ℕ) → Option (Outcome Bool)
is_debugged name files = search_files (suc (length files)) name files 0 (length files)

-- The flags of debug.h for a source file that is compiled with CACHE_DEBUG_FLAG.
pub record Cache : Type 0 where
  pub is_debugged_first : Bool
  pub is_debugged_result : Bool

-- is_debugged(x) of debug.h: the table is searched at its first use only.
unfoldable pub cached : List ℕ → List (List ℕ) → Cache → Option (Outcome (Bool × Cache))
cached name files c = elim c.is_debugged_first [
  | true ↦ elim (is_debugged name files) [
    | none ↦ none
    | some (ok b) ↦ some (ok (b, record { is_debugged_first = false; is_debugged_result = b }))
    | some exit ↦ some exit
    | some fault ↦ some fault
  ]
  | false ↦ some (ok (c.is_debugged_result, c))
]

-- __debug_raw_binary: the characters printed; isprint of <ctype.h> is a parameter.
unfoldable pub raw_binary : (ℕ → Bool) → List ℕ → List ℕ
raw_binary isprint [] = []
raw_binary isprint (c ∷ cs) = (if isprint c then c else b'.') ∷ raw_binary isprint cs
