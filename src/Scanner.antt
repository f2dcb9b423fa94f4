-- ===== src/Scanner.antt =====
-- The scanner that flex makes of scanner.l: its tables, the match of one token, and the tokens of
-- what the simulator sends. A buffer that is filled again goes on where it stopped, so the input is
-- one list of characters.
pub mod Rules
pub mod States
pub mod Matches
pub mod Spelling
pub mod Refines
pub mod Frames
pub mod Memory
pub mod Furthest
pub mod Buffer
pub mod Stack
use projet_prog.Common.{
  ℕ, zero, suc, ◌+◌, Option, none, some, List, [], ◌∷◌, ◌++◌, ltb, ◌==◌, if◌then◌else◌, get_or,
  length,
}

abbrev pub yy_accept : List ℕ
yy_accept = 0 ∷ 0 ∷ 0 ∷ 6 ∷ 4 ∷ 5 ∷ 4 ∷ 1 ∷ 2 ∷ 0 ∷ 0 ∷ 0 ∷ 3 ∷ 0 ∷ []

abbrev pub yy_ec : List ℕ
yy_ec =
    0 ∷ 1 ∷ 1 ∷ 1 ∷ 1 ∷ 1 ∷ 1 ∷ 1 ∷ 1 ∷ 1 ∷ 2 ∷ 1 ∷ 1 ∷ 1 ∷ 1 ∷ 1 ∷ 1 ∷ 1 ∷ 1 ∷ 1 ∷ 1 ∷ 1 ∷ 1 ∷ 1
    ∷ 1 ∷ 1 ∷ 1 ∷ 1 ∷ 1 ∷ 1 ∷ 1 ∷ 1 ∷ 1 ∷ 1 ∷ 1 ∷ 3 ∷ 4 ∷ 1 ∷ 1 ∷ 1 ∷ 1 ∷ 1 ∷ 1 ∷ 5 ∷ 1 ∷ 6 ∷ 1 ∷ 1
    ∷ 7 ∷ 7 ∷ 7 ∷ 7 ∷ 7 ∷ 7 ∷ 7 ∷ 7 ∷ 7 ∷ 7 ∷ 1 ∷ 1 ∷ 1 ∷ 1 ∷ 1 ∷ 1 ∷ 1 ∷ 7 ∷ 7 ∷ 7 ∷ 7 ∷ 7 ∷ 7 ∷ 1
    ∷ 1 ∷ 1 ∷ 1 ∷ 1 ∷ 1 ∷ 1 ∷ 1 ∷ 1 ∷ 1 ∷ 1 ∷ 1 ∷ 1 ∷ 1 ∷ 1 ∷ 1 ∷ 1 ∷ 1 ∷ 1 ∷ 1 ∷ 1 ∷ 1 ∷ 1 ∷ 1 ∷ 1
    ∷ 1 ∷ 7 ∷ 7 ∷ 7 ∷ 7 ∷ 7 ∷ 7 ∷ 1 ∷ 1 ∷ 1 ∷ 1 ∷ 1 ∷ 1 ∷ 1 ∷ 1 ∷ 1 ∷ 1 ∷ 1 ∷ 1 ∷ 1 ∷ 1 ∷ 1 ∷ 1 ∷ 1
    ∷ 1 ∷ 1 ∷ 1 ∷ 1 ∷ 1 ∷ 1 ∷ 1 ∷ 1 ∷ 1 ∷ 1 ∷ 1 ∷ 1 ∷ 1 ∷ 1 ∷ 1 ∷ 1 ∷ 1 ∷ 1 ∷ 1 ∷ 1 ∷ 1 ∷ 1 ∷ 1 ∷ 1
    ∷ 1 ∷ 1 ∷ 1 ∷ 1 ∷ 1 ∷ 1 ∷ 1 ∷ 1 ∷ 1 ∷ 1 ∷ 1 ∷ 1 ∷ 1 ∷ 1 ∷ 1 ∷ 1 ∷ 1 ∷ 1 ∷ 1 ∷ 1 ∷ 1 ∷ 1 ∷ 1 ∷ 1
    ∷ 1 ∷ 1 ∷ 1 ∷ 1 ∷ 1 ∷ 1 ∷ 1 ∷ 1 ∷ 1 ∷ 1 ∷ 1 ∷ 1 ∷ 1 ∷ 1 ∷ 1 ∷ 1 ∷ 1 ∷ 1 ∷ 1 ∷ 1 ∷ 1 ∷ 1 ∷ 1 ∷ 1
    ∷ 1 ∷ 1 ∷ 1 ∷ 1 ∷ 1 ∷ 1 ∷ 1 ∷ 1 ∷ 1 ∷ 1 ∷ 1 ∷ 1 ∷ 1 ∷ 1 ∷ 1 ∷ 1 ∷ 1 ∷ 1 ∷ 1 ∷ 1 ∷ 1 ∷ 1 ∷ 1 ∷ 1
    ∷ 1 ∷ 1 ∷ 1 ∷ 1 ∷ 1 ∷ 1 ∷ 1 ∷ 1 ∷ 1 ∷ 1 ∷ 1 ∷ 1 ∷ 1 ∷ 1 ∷ 1 ∷ 1 ∷ 1 ∷ 1 ∷ 1 ∷ 1 ∷ 1 ∷ 1 ∷ 1 ∷ 1
    ∷ 1 ∷ 1 ∷ 1 ∷ 1 ∷ 1 ∷ 1 ∷ 1 ∷ 1 ∷ 1 ∷ 1 ∷ 1 ∷ 1 ∷ 1 ∷ 1 ∷ 1 ∷ 1 ∷ []

abbrev pub yy_meta : List ℕ
yy_meta = 0 ∷ 1 ∷ 1 ∷ 1 ∷ 2 ∷ 1 ∷ 1 ∷ 1 ∷ []

abbrev pub yy_base : List ℕ
yy_base = 0 ∷ 0 ∷ 0 ∷ 13 ∷ 14 ∷ 14 ∷ 9 ∷ 14 ∷ 14 ∷ 8 ∷ 3 ∷ 2 ∷ 14 ∷ 14 ∷ 7 ∷ []

abbrev pub yy_def : List ℕ
yy_def = 0 ∷ 13 ∷ 1 ∷ 13 ∷ 13 ∷ 13 ∷ 14 ∷ 13 ∷ 13 ∷ 14 ∷ 13 ∷ 13 ∷ 13 ∷ 0 ∷ 13 ∷ []

abbrev pub yy_nxt : List ℕ
yy_nxt =
    0 ∷ 4 ∷ 5 ∷ 4 ∷ 6 ∷ 7 ∷ 8 ∷ 4 ∷ 9 ∷ 12 ∷ 11 ∷ 10 ∷ 10 ∷ 13 ∷ 3 ∷ 13 ∷ 13 ∷ 13 ∷ 13 ∷ 13 ∷ 13
    ∷ 13 ∷ []

abbrev pub yy_chk : List ℕ
yy_chk =
    0 ∷ 1 ∷ 1 ∷ 1 ∷ 1 ∷ 1 ∷ 1 ∷ 1 ∷ 14 ∷ 11 ∷ 10 ∷ 9 ∷ 6 ∷ 3 ∷ 13 ∷ 13 ∷ 13 ∷ 13 ∷ 13 ∷ 13 ∷ 13 ∷ 13
    ∷ []

unfoldable pub accept : ℕ → ℕ
accept state = get_or yy_accept state 0

unfoldable pub base : ℕ → ℕ
base state = get_or yy_base state 0

-- yy_ec of a character; NUL, which also ends the buffer, is of class 1 where it is a character.
unfoldable pub class : ℕ → ℕ
class c = if c == 0 then 1 else get_or yy_ec c 0

-- The inner `while`, which goes to the default of a state that has no entry of its own. The chain
-- of defaults has at most three states; `none` means that the fuel ran out.
unfoldable pub find_entry : ℕ → ℕ → ℕ → Option (ℕ × ℕ)
unfolding base
find_entry zero state c = none
find_entry (suc fuel) state c =
    let default = get_or yy_def state 0 in
    let more = find_entry fuel default (if ltb default 14 then c else get_or yy_meta c 0) in
    if get_or yy_chk (base state + c) 0 == state then some (state, c) else more

-- The state behind a character of class `c`. State 13 is the jam.
unfoldable pub next_state : ℕ → ℕ → ℕ
unfolding find_entry base
next_state state c = elim (find_entry 4 state c) [
  | none ↦ 13
  | some (owner, c') ↦ get_or yy_nxt (base owner + c') 0
]

-- A state with the text up to it and the characters behind.
pub record Match : Type 0 where
  pub state : ℕ
  pub text : List ℕ
  pub rest : List ℕ

-- yy_find_action, which goes back to the accepting state seen last where this one does not accept.
unfoldable pub find_action : Match → Match → Match
find_action m last = if accept m.state == 0 then last else m

-- yy_match: the loop, over the characters left. The end of the stream ends it too.
unfoldable pub match_text : List ℕ → ℕ → List ℕ → Match → Match
match_text [] state text last = find_action (record { state = state; text = text; rest = [] }) last
match_text (c ∷ cs) state text last =
    let last' = find_action (record { state = state; text = text; rest = c ∷ cs }) last in
    let state' = next_state state (class c) in
    let more = match_text cs state' (text ++ (c ∷ [])) last' in
    if base state' == 14
    then find_action (record { state = state'; text = text ++ (c ∷ []); rest = cs }) last'
    else more

-- The match of one token, from the start state.
unfoldable pub match_token : List ℕ → Match
match_token cs = match_text cs 1 [] (record { state = 0; text = []; rest = cs })

-- The rules of scanner.l, with the text that their actions read; `newline` is the default rule,
-- which prints it.
pub data Token : Type 0 where
  ack nack newline : Token
  packet : List ℕ → Token
  other : ℕ → Token

-- The action of an accepting state; a state that accepts nothing is the fatal error of flex.
unfoldable pub token_of : Match → Option Token
token_of m =
    let act = accept m.state in
    if act == 1
    then some ack
    else if act == 2
    then some nack
    else if act == 3
    then some (packet m.text)
    else if act == 4
    then some (other (get_or m.text 0 0))
    else if act == 5
    then some newline
    else none

-- The outer `while`: one token a round, at least one character each. `none` means that the fuel ran
-- out, or that no action was found.
unfoldable pub scan_tokens : ℕ → List ℕ → Option (List Token)
scan_tokens fuel [] = some []
scan_tokens zero (c ∷ cs) = none
scan_tokens (suc fuel) (c ∷ cs) =
    let m = match_token (c ∷ cs) in
    elim (token_of m) [
      | none ↦ none
      | some t ↦ elim (scan_tokens fuel m.rest) [ none ↦ none | some ts ↦ some (t ∷ ts) ]
    ]

-- The tokens of all that is received until the end of the stream.
unfoldable pub tokens : List ℕ → Option (List Token)
tokens cs = scan_tokens (length cs) cs
