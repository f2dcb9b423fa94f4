-- ===== src/Scanner/Buffer.antt =====
-- The buffer of scanner.c: the block that `read` fills, the positions in it, the character that is
-- hidden behind a token, and yylex on top of them. The buffer is that of yy_create_buffer, the only one
-- that the program makes, which is filled again and grows.
pub mod Block
pub mod State
pub mod Runs
pub mod Held
pub mod Acts
pub mod Reads
pub mod Refilled
pub mod Ended
pub mod Scans
pub mod Nuls
pub mod Ends
pub mod Lexing
pub mod Tokens
use projet_prog.Common.{
  ℕ, zero, suc, ◌+◌, ◌-◌, Option, none, some, List, [], ◌∷◌, ltb, leb, ◌==◌, if◌then◌else◌, length,
  drop,
}
use projet_prog.Scanner.{Token, token_of, accept}
use projet_prog.Scanner.Buffer.Block.{◌>>=◌, poke_all, move}
use projet_prog.Scanner.Buffer.State.{
  Status, Guts, pick, match_block, get_previous_state, try_nul_trans, before_action, restore,
  Filled, grow, create_buffer, finish_buffer, Label, start_buffer, text_of, yy_buf_size, fresh,
  normal, eof_pending, continue_scan, end_of_file, last_match, matching, acting,
}

-- The accepting state of the next action, or `none` for that of the end of the file.
abbrev pub Lexed : Type 0 → Type 0
Lexed Source = Option (Option ℕ × Guts × Source)

-- What stands behind a `goto`, given yy_bp, yy_current_state and yy_cp.
abbrev pub Goto : Type 0 → Type 0
Goto Source = Label → ℕ → ℕ → ℕ → Guts → Source → Lexed Source

module _ {Source : Type 0} where
  -- "This was really a NUL."
  unfoldable pub at_nul : Goto Source → ℕ → Guts → Source → Lexed Source
  at_nul goto amount g src =
      let (state, g') = get_previous_state (record g { c_buf_p = g.text_ptr + amount }) in
      let (next, g'') = try_nul_trans state g' in
      if next == 0
      then goto acting g.text_ptr state g''.c_buf_p g'' src
      else goto matching g.text_ptr next (suc g''.c_buf_p)
          (record g'' { c_buf_p = suc g''.c_buf_p }) src

  -- What is done with the result of yy_get_next_buffer; yywrap is 1.
  unfoldable pub behind_buffer : Goto Source → ℕ → Filled → Guts → Source → Lexed Source
  behind_buffer goto amount end_of_file g src = some (none, record g { c_buf_p = g.text_ptr }, src)
  behind_buffer goto amount continue_scan g src =
      let (state, g') = get_previous_state (record g { c_buf_p = g.text_ptr + amount }) in
      goto matching g.text_ptr state g'.c_buf_p g' src
  behind_buffer goto amount last_match g src =
      let (state, g') = get_previous_state (record g { c_buf_p = g.n_chars }) in
      goto acting g.text_ptr state g'.c_buf_p g' src

-- `read` gives what has come, at most as many characters as asked for, and none at the end of the
-- stream; it is called again where a signal interrupts it, and `none` is a failure, which ends the
-- program.
module _ {Source : Type 0} (read : ℕ → Source → Option (List ℕ × Source)) (junk : ℕ → List ℕ) where
  -- YY_INPUT behind the text that was moved to the start of the block.
  unfoldable pub fill : ℕ → Guts → Source → Option (ℕ × Guts × Source)
  fill moved g src = do
    (size, b) ← grow junk 2 moved g.buf_size g.ch_buf
    let room = size - moved - 1
    (cs, src') ← read (if ltb 8192 room then 8192 else room) src
    b' ← poke_all b moved cs
    some (length cs, record g { ch_buf = b'; buf_size = size; buf_chars = length cs }, src')

  -- The characters read, none where the end was seen before.
  unfoldable pub refill : Status → ℕ → Guts → Source → Option (ℕ × Guts × Source)
  refill eof_pending moved g src = some (0, record g { buf_chars = 0 }, src)
  refill fresh moved g src = fill moved g src
  refill normal moved g src = fill moved g src

  -- yy_get_next_buffer
  unfoldable pub next_buffer : Guts → Source → Option (Filled × Guts × Source)
  next_buffer g src =
      let moved = g.c_buf_p - g.text_ptr - 1 in
      let filled : Option (Filled × Guts × Source) = (do
        b ← move moved 0 g.text_ptr g.ch_buf
        (chars, g', src') ← refill g.status moved (record g { ch_buf = b }) src
        finish_buffer junk moved chars g' src') in
      if ltb (g.n_chars + 1) g.c_buf_p then none else filled

  -- case YY_END_OF_BUFFER
  unfoldable pub end_of_buffer : Goto Source → ℕ → Guts → Source → Lexed Source
  end_of_buffer goto cp g src = do
    let amount = cp - g.text_ptr - 1
    restored ← restore cp g
    let g' = start_buffer restored
    let refilled = (do
      (what, g'', src') ← next_buffer g' src
      behind_buffer goto amount what g'' src')
    if leb g'.c_buf_p g'.n_chars then at_nul goto amount g' src else refilled

  -- yy_find_action, and the switch up to the action.
  unfoldable pub act : Goto Source → ℕ → ℕ → ℕ → Guts → Source → Lexed Source
  act goto bp state cp g src = do
    let (state', cp') = pick (state, cp) g.last
    g' ← before_action bp cp' g
    let ended = end_of_buffer goto cp' g' src
    if accept state' == 6 then ended else some (some state', g', src)

  -- A round of yylex; the fuel is for the rounds through the end of the buffer.
  unfoldable pub lex : ℕ → Goto Source
  lex zero label bp state cp g src = none
  lex (suc fuel) acting bp state cp g src = act (lex fuel) bp state cp g src
  lex (suc fuel) matching bp state cp g src = do
    ((state', cp'), last) ← match_block (drop cp g.ch_buf) state cp g.last
    act (lex fuel) bp state' cp' (record g { last = last }) src

  -- yylex up to its next action.
  unfoldable pub next_action : ℕ → Guts → Source → Lexed Source
  next_action fuel g src = do
    g' ← restore g.c_buf_p g
    lex fuel matching g.c_buf_p 1 g.c_buf_p g' src

  -- The tokens up to the end of the stream, of which there are at most `rounds`.
  unfoldable pub lex_all : ℕ → ℕ → Guts → Source → Option (List Token)
  lex_all zero fuel g src = none
  lex_all (suc rounds) fuel g src = do
    (event, g', src') ← next_action fuel g src
    elim event [
      | none ↦ some []
      | some state ↦ (do
        t ← token_of (record { state = state; text = text_of g'; rest = [] })
        ts ← lex_all rounds fuel g' src'
        some (t ∷ ts))
    ]

  -- The tokens of all that `read` gives.
  unfoldable pub read_tokens : ℕ → Source → Option (List Token)
  read_tokens fuel src = do g ← create_buffer junk yy_buf_size; lex_all fuel fuel g src
