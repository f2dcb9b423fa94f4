-- ===== src/Scanner/Stack/Roomy.antt =====
-- The array of the stack of scanner.c, and the room that yyensure_buffer_stack makes.
use projet_prog.Common.{
  ℕ, suc, ◌+◌, ◌<◌, ◌≡◌, refl, sym, ◌∙◌, Option, none, some, List, [], ◌∷◌, ◌++◌, get_or, length,
  length-append, leb, Bool-cases, ◌⊎◌, inl, inr, arith,
}
use projet_prog.Scanner.Stack.State.{Stacked, current}
use projet_prog.Scanner.Stack.{ensure_stack}
use projet_prog.Scanner.Stack.Slots.{get_or-append, get_or_within}

-- The stack has room for a push, and the same buffers.
pub record Roomy (g : Stacked) : Type 0 where
  pub slots : List (Option ℕ)
  pub ensured : ensure_stack g ≡ record g { stack = some slots }
  pub room : suc g.top < length slots
  pub kept : get_or slots g.top none ≡ current g

some_or_none : {A : Type 0} (o : Option A) → (o ≡ none) ⊎ ((x : A) × (o ≡ some x))
some_or_none none = inl refl
some_or_none (some x) = inr (x, refl)

ensured_stack : (g : Stacked) (s : List (Option ℕ)) → g.stack ≡ some s → g.top < length s → Roomy g
unfolding ensure_stack current
ensured_stack g s e h = elim (Bool-cases (leb (length s) (g.top + 1))) [
  | inl full ↦
      let more : List (Option ℕ) = none ∷ none ∷ none ∷ none ∷ none ∷ none ∷ none ∷ none ∷ [] in
      record {
        slots = s ++ more;
        ensured = rw (e, full) refl;
        room = omega (arith, length-append s more);
        kept = rw e (get_or-append s more g.top none h);
      }
  | inr free ↦ record {
    slots = s;
    ensured = rw (e, free) refl;
    room = ground (arith, free);
    kept = rw e refl;
  }
]

abbrev slot : ℕ → Option (List (Option ℕ)) → Option ℕ
slot i none = none
slot i (some s) = get_or s i none

current-slot : (g : Stacked) (o : Option (List (Option ℕ))) → g.stack ≡ o → current g ≡ slot g.top o
unfolding current
current-slot g none e = rw e refl
current-slot g (some s) e = rw e refl

-- The array of the stack, where a buffer is scanned.
pub record Slot (g : Stacked) (b : ℕ) : Type 0 where
  pub slots : List (Option ℕ)
  pub holds : g.stack ≡ some slots
  pub within : g.top < length slots

pub current-Slot : (g : Stacked) (b : ℕ) → current g ≡ some b → Slot g b
current-Slot g b e = elim (some_or_none g.stack) [
  | inl p ↦ (let q = current-slot g none p in cc)
  | inr (s, p) ↦ record {
    slots = s;
    holds = p;
    within = get_or_within s g.top b (sym (current-slot g (some s) p) ∙ e);
  }
]

pub ensure_stack-Roomy : (g : Stacked) (b : ℕ) → current g ≡ some b → Roomy g
ensure_stack-Roomy g b e = let s = current-Slot g b e in ensured_stack g s.slots s.holds s.within
