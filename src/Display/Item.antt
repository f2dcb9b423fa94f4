-- ===== src/Display/Item.antt =====
-- The pieces of a printed text: `text` for what a format spells out, `dec` for %d, `hex` with its
-- width for %x, `chars` for a %s of a name that was read.
use Prim.Native.String.{String}
use projet_prog.Common.{ℕ, List}
use projet_prog.Stdio.{M, crash}
use projet_prog.Common.{Option, none, some}

pub data Item : Type 0 where
  text : String → Item
  dec : ℕ → Item
  hex : ℕ → ℕ → Item
  chars : List ℕ → Item

-- An element of an array, which a fault ends if it is not there.
abbrev pub at_index : {A B : Type 0} → Option A → (A → M B) → M B
at_index none k = crash
at_index (some a) k = k a
