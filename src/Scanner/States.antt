-- ===== src/Scanner/States.antt =====
-- The automaton of the tables, state by state.
use projet_prog.Common.{
  ℕ, all_below, all_below_holds, both, ◌<◌, ◌≡◌, refl, Bool, true, ◌&&◌, ◌==◌, ==→eq, if◌then◌else◌,
}
use projet_prog.Scanner.{class, next_state}
use projet_prog.Scanner.Rules.{is_hex}

-- The states behind a character in the start state, inside a frame, and behind "#".
unfoldable pub start_state : ℕ → ℕ
start_state c =
    if c == b'+'
    then 7
    else if c == b'-'
    then 8
    else if c == b'$'
    then 6
    else if c == 10
    then 5
    else 4

unfoldable pub frame_state : ℕ → ℕ
frame_state c = if c == b'#' then 10 else if c == b'$' then 13 else 9

unfoldable pub hex_state : ℕ → ℕ → ℕ
hex_state then_state c = if is_hex c then then_state else 13

are_states : ℕ → Bool
are_states c =
    (next_state 1 (class c) == start_state c)
    && ((next_state 6 (class c) == frame_state c)
        && ((next_state 9 (class c) == frame_state c)
            && ((next_state 10 (class c) == hex_state 11 c)
                && (next_state 11 (class c) == hex_state 12 c))))

are_states_below : (c : ℕ) → c < 256 → are_states c ≡ true
unfolding are_states all_below next_state class start_state frame_state hex_state is_hex
are_states_below c h = all_below_holds are_states 256 c refl h

-- Where the automaton goes, for every character of one byte.
pub record Transitions (c : ℕ) : Type 0 where
  pub from_start : next_state 1 (class c) ≡ start_state c
  pub from_dollar : next_state 6 (class c) ≡ frame_state c
  pub from_frame : next_state 9 (class c) ≡ frame_state c
  pub from_hash : next_state 10 (class c) ≡ hex_state 11 c
  pub from_hex : next_state 11 (class c) ≡ hex_state 12 c

pub transitions : (c : ℕ) → c < 256 → Transitions c
unfolding are_states
transitions c h =
    let (p, p') = both _ _ (are_states_below c h) in
    let (q, q') = both _ _ p' in
    let (r, r') = both _ _ q' in
    let (s, t) = both _ _ r' in
    record {
      from_start = ==→eq _ _ p;
      from_dollar = ==→eq _ _ q;
      from_frame = ==→eq _ _ r;
      from_hash = ==→eq _ _ s;
      from_hex = ==→eq _ _ t;
    }
