-- ===== src/Scanner/Buffer/Runs.antt =====
-- The matching loop of scanner.c on a buffer that two NULs end: it stops at a match, or at a NUL.
use projet_prog.Common.{
  ℕ, suc, ◌+◌, ◌<◌, ◌≡◌, ◌≢◌, ◌⊎◌, refl, ap, ◌∙◌, Bool, true, false, ◌||◌, some, List, [], ◌∷◌,
  ◌++◌, All, All-append, length, get_or, ◌==◌, ==→eq, ==→ne, all_below, all_below_holds, Bool-cases,
  inl, inr, arith,
}
use projet_prog.Common.Words.{IsByte}
use projet_prog.Scanner.{accept, base, class, next_state, find_entry, yy_ec}
use projet_prog.Scanner.Furthest.{Entry, entry_lem, furthest, furthest-jammed}
use projet_prog.Scanner.Buffer.State.{pick, match_block, previous_state}

-- A state that more characters may lead on from.
pub record IsOpen (s : ℕ) : Type 0 where
  pub is_state : s < 14
  pub ne_end : s ≢ 3
  pub is_pos : 0 < s
  pub ne_jam : s ≢ 13

pub start-IsOpen : IsOpen 1
start-IsOpen = record {
  is_state = omega arith;
  ne_end = λ e. absurd (omega arith);
  is_pos = omega arith;
  ne_jam = λ e. absurd (omega arith);
}

ends_at : ℕ → Bool
ends_at s = s == 0 || (s == 3 || next_state s 0 == 3)

next_end : (s : ℕ) → IsOpen s → next_state s 0 ≡ 3
next_end s o = ==→eq _ _ (unfold ends_at in ground (arith, holds, o.ne_end, o.is_pos))
  where
    holds : ends_at s ≡ true
    holds =
        unfold all_below ends_at next_state find_entry base in
        all_below_holds ends_at 14 s refl o.is_state

jams_at : ℕ → Bool
jams_at c = next_state 3 (get_or yy_ec c 0) == 13

next_jam : (c : ℕ) → IsByte c → next_state 3 (get_or yy_ec c 0) ≡ 13
next_jam c w = ==→eq _ _ (unfold jams_at in holds)
  where
    holds : jams_at c ≡ true
    holds =
        unfold all_below jams_at next_state find_entry base in all_below_holds jams_at 256 c refl w

class_ne : (c : ℕ) → (c == 0) ≡ false → get_or yy_ec c 0 ≡ class c
unfolding class
class_ne c e = rw e

abbrev Run : Type 0
Run = (ℕ × ℕ) × (ℕ × ℕ)

-- The match is found, whatever comes behind the buffer.
abbrev pub Stops : List ℕ → ℕ → ℕ → ℕ × ℕ → Run → Type 0
Stops cs s p last r =
    (cs ≢ []) × ((more : List ℕ) → All IsByte more → furthest (cs ++ more) s p last ≡ pick r.0 r.1)

-- The loop has read up to a NUL, or to the end of the buffer.
pub record Ends (cs : List ℕ) (s p : ℕ) (last : ℕ × ℕ) (r : Run) : Type 0 where
  pub before : List ℕ
  pub behind : List ℕ
  pub parts : cs ≡ before ++ behind
  pub at_end : (behind ≡ []) ⊎ ((more : List ℕ) × (behind ≡ 0 ∷ more))
  pub found : pick r.0 r.1 ≡ (3, suc (p + length before))
  pub is_open : IsOpen (previous_state before s p last).0

abbrev pub Matched : List ℕ → List ℕ → ℕ → ℕ → ℕ × ℕ → Type 0
Matched cs junk s p last =
    (r : Run) × (match_block (cs ++ (0 ∷ 0 ∷ junk)) s p last ≡ some r)
    × (Stops cs s p last r ⊎ Ends cs s p last r)

-- A NUL in front of another character of the block.
match_nul :
    (d : ℕ) (cs : List ℕ) (s p : ℕ) (last : ℕ × ℕ)
    → IsOpen s
    → IsByte d
    → match_block (0 ∷ d ∷ cs) s p last ≡ some ((13, suc (suc p)), (3, suc p))
unfolding match_block pick base accept
match_nul d cs s p last o w = rw (next_end s o, next_jam d w)

found_nul : (p : ℕ) → pick (13, suc (suc p)) (3, suc p) ≡ (3, suc p)
unfolding pick accept
found_nul p = refl

Ends-here :
    (behind : List ℕ) (s p : ℕ) (last : ℕ × ℕ)
    → (behind ≡ []) ⊎ ((more : List ℕ) × (behind ≡ 0 ∷ more))
    → IsOpen s
    → Ends behind s p last ((13, suc (suc p)), (3, suc p))
unfolding previous_state
Ends-here behind s p last e o = record {
  before = [];
  behind = behind;
  parts = refl;
  at_end = e;
  found = found_nul p ∙ ap (λ n. (3, suc n)) (omega arith);
  is_open = o;
}

first_behind :
    (cs junk : List ℕ)
    → All IsByte cs
    → (d : ℕ) × (t : List ℕ) × (cs ++ (0 ∷ junk) ≡ d ∷ t) × IsByte d
first_behind [] junk w = (0, junk, refl, omega arith)
first_behind (c ∷ cs) junk (v, w) = (c, cs ++ (0 ∷ junk), refl, v)

-- One character is read, and the loop goes on.
Matched-cons :
    (c : ℕ) (cs junk : List ℕ) (s p : ℕ) (last : ℕ × ℕ)
    → (c == 0) ≡ false
    → (base (next_state s (class c)) == 14) ≡ false
    → Matched cs junk (next_state s (class c)) (suc p) (pick (s, p) last)
    → Matched (c ∷ cs) junk s p last
unfolding match_block furthest previous_state
Matched-cons c cs junk s p last z b (r, e, inl stops) =
    (r, rw (class_ne c z, b) e, inl ((λ n. cc), stops.1))
Matched-cons c cs junk s p last z b (r, e, inr ends) = (
  r,
  rw (class_ne c z, b) e,
  inr (record {
    before = c ∷ ends.before;
    behind = ends.behind;
    parts = ap (◌∷◌ c) ends.parts;
    at_end = ends.at_end;
    found = ends.found ∙ ap (λ n. (3, suc n)) (omega arith);
    is_open = ends.is_open;
  }),
)

-- The loop stops at the character that it has read.
Matched-jam :
    (c : ℕ) (cs junk : List ℕ) (s p : ℕ) (last : ℕ × ℕ)
    → All IsByte (c ∷ cs)
    → Entry s (class c)
    → (c == 0) ≡ false
    → (base (next_state s (class c)) == 14) ≡ true
    → Matched (c ∷ cs) junk s p last
unfolding match_block furthest
Matched-jam c cs junk s p last (v, w) e z b =
    let s' = next_state s (class c) in
    (
      ((s', suc p), pick (s, p) last),
      rw (class_ne c z, b),
      inl (
        (λ n. cc),
        λ more u.
            furthest-jammed (cs ++ more) s' (suc p) (pick (s, p) last) e.is_state (==→eq _ _ b)
              (All-append IsByte cs more w u),
      ),
    )

IsOpen-behind :
    (s k : ℕ) → Entry s k → (base (next_state s k) == 14) ≡ false → IsOpen (next_state s k)
IsOpen-behind s k e b = record {
  is_state = e.is_state;
  ne_end = e.ne_end;
  is_pos = e.is_pos;
  ne_jam = λ j. ==→ne _ _ b (ap base j ∙ base_jam);
}
  where
    base_jam : base 13 ≡ 14
    base_jam = unfold base in refl

pub match_block_lem :
    (cs junk : List ℕ) (s p : ℕ) (last : ℕ × ℕ)
    → IsOpen s
    → All IsByte cs
    → Matched cs junk s p last
match_block_lem [] junk s p last o w = (
  ((13, suc (suc p)), (3, suc p)),
  match_nul 0 junk s p last o (omega arith),
  inr (Ends-here [] s p last (inl refl) o),
)
match_block_lem (c ∷ cs) junk s p last o (v, w) =
    let e = entry_lem s c o.is_state v in
    elim (Bool-cases (c == 0)) [
      | inl z ↦
          let (d, t, f, u) = first_behind cs (0 ∷ junk) w in
          (
            ((13, suc (suc p)), (3, suc p)),
            rw (==→eq c 0 z, f) (match_nul d t s p last o u),
            inr (Ends-here (c ∷ cs) s p last (inr (cs, ap (λ x. x ∷ cs) (==→eq c 0 z))) o),
          )
      | inr z ↦ elim (Bool-cases (base (next_state s (class c)) == 14)) [
        | inl b ↦ Matched-jam c cs junk s p last (v, w) e z b
        | inr b ↦ Matched-cons c cs junk s p last z b (
            match_block_lem cs junk (next_state s (class c)) (suc p) (pick (s, p) last)
              (IsOpen-behind s (class c) e b) w)
      ]
    ]
