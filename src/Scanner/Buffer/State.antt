-- ===== src/Scanner/Buffer/State.antt =====
-- The state of the scanner in scanner.c, and the steps on it that read nothing from the source.
use projet_prog.Common.{
  ℕ, zero, suc, ◌+◌, ◌-◌, ◌*◌, ◌/◌, ◌^◌, Option, none, some, List, [], ◌∷◌, ◌++◌, ltb, ◌==◌,
  if◌then◌else◌, get_or, take, drop,
}
use projet_prog.Scanner.{accept, base, class, next_state, yy_ec}
use projet_prog.Scanner.Buffer.Block.{◌>>=◌, peek, poke}

-- yy_buffer_status
pub data Status : Type 0 where
  fresh normal eof_pending : Status

-- The parts of struct yyguts_t and of its one struct yy_buffer_state that the scanner goes by;
-- `buf_chars` is the yy_n_chars of the buffer. A pointer into yy_ch_buf is an index.
pub record Guts : Type 0 where
  pub ch_buf : List ℕ
  pub buf_size : ℕ
  pub buf_chars : ℕ
  pub status : Status
  pub n_chars : ℕ
  pub hold_char : ℕ
  pub text_ptr : ℕ
  pub c_buf_p : ℕ
  pub last : ℕ × ℕ

-- yy_last_accepting_state and yy_last_accepting_cpos, or those of this state where it accepts.
unfoldable pub pick : ℕ × ℕ → ℕ × ℕ → ℕ × ℕ
pick here last = if accept here.0 == 0 then last else here

-- yy_match: the loop, over the characters of the block from yy_cp on. NUL is of class 0, which leads
-- to the state of the end of the buffer. `none`: the loop leaves the block.
unfoldable pub match_block : List ℕ → ℕ → ℕ → ℕ × ℕ → Option ((ℕ × ℕ) × (ℕ × ℕ))
match_block [] state cp last = none
match_block (c ∷ cs) state cp last =
    let last' = pick (state, cp) last in
    let state' = next_state state (get_or yy_ec c 0) in
    let more = match_block cs state' (suc cp) last' in
    if base state' == 14 then some ((state', suc cp), last') else more

-- The loop of yy_get_previous_state, over the text.
unfoldable pub previous_state : List ℕ → ℕ → ℕ → ℕ × ℕ → ℕ × (ℕ × ℕ)
previous_state [] state cp last = (state, last)
previous_state (c ∷ cs) state cp last =
    previous_state cs (next_state state (class c)) (suc cp) (pick (state, cp) last)

-- yy_get_previous_state: the state behind the text between yytext_ptr and yy_c_buf_p.
unfoldable pub get_previous_state : Guts → ℕ × Guts
get_previous_state g =
    let text = take (g.c_buf_p - g.text_ptr) (drop g.text_ptr g.ch_buf) in
    let r = previous_state text 1 g.text_ptr g.last in (r.0, record g { last = r.1 })

-- yy_try_NUL_trans: the state behind a NUL, or 0 where the scanner jams.
unfoldable pub try_nul_trans : ℕ → Guts → ℕ × Guts
try_nul_trans state g =
    let state' = next_state state 1 in
    (if state' == 13 then 0 else state', record g { last = pick (state, g.c_buf_p) g.last })

-- YY_DO_BEFORE_ACTION: the text from `bp` to `cp` is made a string, and the character behind it is
-- kept in yy_hold_char.
unfoldable pub before_action : ℕ → ℕ → Guts → Option Guts
before_action bp cp g = do
  c ← peek g.ch_buf cp
  b ← poke g.ch_buf cp 0
  some (record g { ch_buf = b; hold_char = c; text_ptr = bp; c_buf_p = cp })

-- `*yy_cp = yyg->yy_hold_char`
unfoldable pub restore : ℕ → Guts → Option Guts
restore cp g = do b ← poke g.ch_buf cp g.hold_char; some (record g { ch_buf = b })

-- yy_flush_buffer and yy_load_buffer_state, as yyrestart calls them.
unfoldable pub restart : Guts → Option Guts
restart g = do
  a ← poke g.ch_buf 0 0
  b ← poke a 1 0
  c ← peek b 0
  some (record g {
    ch_buf = b;
    buf_chars = 0;
    status = fresh;
    n_chars = 0;
    text_ptr = 0;
    c_buf_p = 0;
    hold_char = c;
  })

-- What yy_get_next_buffer returns.
pub data Filled : Type 0 where
  continue_scan end_of_file last_match : Filled

-- The end of the source: `yyrestart` if there is no text, and otherwise the text is matched first.
unfoldable pub at_end : ℕ → Guts → Option (Filled × Guts)
at_end moved g =
    if moved == 0
    then (do g' ← restart g; some (end_of_file, g'))
    else some (last_match, record g { status = eof_pending })

-- The two characters that end the buffer.
unfoldable pub end_buffer : ℕ → Guts → Option Guts
end_buffer chars g = do
  a ← poke g.ch_buf chars 0
  b ← poke a (suc chars) 0
  some (record g { ch_buf = b; n_chars = chars; text_ptr = 0 })

-- `junk n` is what malloc and realloc leave in `n` new bytes.
module _ (junk : ℕ → List ℕ) where
  -- The loop that doubles the buffer until there is room behind the text. The size is an int; one
  -- round suffices, and the fuel is for two.
  unfoldable pub grow : ℕ → ℕ → ℕ → List ℕ → Option (ℕ × List ℕ)
  grow zero moved size b = none
  grow (suc fuel) moved size b =
      let more = grow fuel moved (size * 2) (b ++ junk size) in
      let grown = if ltb (size * 2) (2 ^ 31) then more else none in
      if ltb (moved + 1) size then some (size, b) else grown

  -- The array is extended where more was read than it has room for.
  unfoldable pub extend : ℕ → ℕ → Guts → Guts
  extend chars moved g =
      let size = chars + moved + chars / 2 in
      if ltb g.buf_size (chars + moved)
      then record g { ch_buf = take size (g.ch_buf ++ junk size); buf_size = size - 2 }
      else g

  -- yy_create_buffer, and the load of its state.
  unfoldable pub create_buffer : ℕ → Option Guts
  create_buffer size = restart (record {
    ch_buf = junk (size + 2);
    buf_size = size;
    buf_chars = 0;
    status = fresh;
    n_chars = 0;
    hold_char = 0;
    text_ptr = 0;
    c_buf_p = 0;
    last = (0, 0);
  })

  -- yy_get_next_buffer behind the read of `chars` characters.
  unfoldable pub finish_buffer {ℓ} :
      {Source : Type ℓ} → ℕ → ℕ → Guts → Source → Option (Filled × Guts × Source)
  finish_buffer moved chars g src = do
    (what, g') ← if chars == 0 then at_end moved g else some (continue_scan, g)
    h ← end_buffer (chars + moved) (extend chars moved g')
    some (what, h, src)

-- Where yylex goes on: at yy_match or at yy_find_action.
pub data Label : Type 0 where
  matching acting : Label

-- The first time, the number of characters is taken from the buffer.
unfoldable pub start_buffer : Guts → Guts
start_buffer g = elim g.status [
  | fresh ↦ record g { n_chars = g.buf_chars; status = normal }
  | normal ↦ g
  | eof_pending ↦ g
]

-- yytext, of yyleng characters
unfoldable pub text_of : Guts → List ℕ
text_of g = take (g.c_buf_p - g.text_ptr) (drop g.text_ptr g.ch_buf)

abbrev pub yy_buf_size : ℕ
yy_buf_size = 16384
