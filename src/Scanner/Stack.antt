-- ===== src/Scanner/Stack.antt =====
-- The buffer stack of scanner.c: the buffers that a scanner has, of which the top one is scanned, and
-- the calls that make, flush, switch, push, pop and delete one, up to yylex_destroy.
pub mod State
pub mod Slots
pub mod Roomy
pub mod Resumes
pub mod Left
pub mod Started
pub mod Texts
use projet_prog.Common.{
  ℕ, zero, suc, ◌+◌, true, false, Option, none, some, List, [], ◌∷◌, ◌++◌, leb, if◌then◌else◌,
  length,
}
use projet_prog.Scanner.Buffer.Block.{◌>>=◌, poke}
use projet_prog.Scanner.Buffer.State.{fresh, yy_buf_size}
use projet_prog.Scanner.Stack.State.{
  BufferState, Stacked, buffer_at, current, init_buffer, is_current, load_buffer_state, set_current,
  store,
}

-- yyensure_buffer_stack
unfoldable pub ensure_stack : Stacked → Stacked
ensure_stack g = elim g.stack [
  | none ↦ record g { stack = some (none ∷ []); top = 0 }
  | some s ↦
      if leb (length s) (g.top + 1)
      then record g {
        stack = some (s ++ (none ∷ none ∷ none ∷ none ∷ none ∷ none ∷ none ∷ none ∷ []));
      }
      else g
]

-- The old buffer is made to go on where it stopped.
unfoldable pub save_current : Stacked → Option Stacked
save_current g = elim (current g) [
  | none ↦ some g
  | some b ↦ (do
    x ← buffer_at b g
    cs ← poke x.ch_buf g.c_buf_p g.hold_char
    store b (some (record x { ch_buf = cs; buf_pos = g.c_buf_p; buf_chars = g.n_chars })) g)
]

-- The new buffer is put in the top slot, and scanned.
unfoldable pub enter_buffer : ℕ → Stacked → Option Stacked
enter_buffer b g = do
  g' ← set_current (some b) g
  g'' ← load_buffer_state g'
  some (record g'' { switched = true })

-- yy_switch_to_buffer, of a buffer
unfoldable pub switch_to_buffer : ℕ → Stacked → Option Stacked
switch_to_buffer b g =
    let g' = ensure_stack g in
    let switched = (do g'' ← save_current g'; enter_buffer b g'') in
    if is_current b g' then some g' else switched

-- "Only push if top exists. Otherwise, replace top."
unfoldable pub raise_top : Stacked → Stacked
raise_top g = elim (current g) [ none ↦ g | some b ↦ record g { top = suc g.top } ]

-- yypush_buffer_state; `none` is NULL.
unfoldable pub push_buffer_state : Option ℕ → Stacked → Option Stacked
push_buffer_state none g = some g
push_buffer_state (some b) g = do g' ← save_current (ensure_stack g); enter_buffer b (raise_top g')

-- yy_delete_buffer
unfoldable pub delete_buffer : Option ℕ → Stacked → Option Stacked
delete_buffer none g = some g
delete_buffer (some b) g = do
  let cleared = set_current none g
  g' ← if is_current b g then cleared else some g
  x ← buffer_at b g'
  store b none g'

abbrev pub lower_top : Stacked → Stacked
lower_top g = elim g.top [ zero ↦ g | suc n ↦ record g { top = n } ]

-- The buffer below goes on, if there is one.
unfoldable pub resume_current : Stacked → Option Stacked
resume_current g = elim (current g) [
  | none ↦ some g
  | some b ↦ (do g' ← load_buffer_state g; some (record g' { switched = true }))
]

-- yypop_buffer_state
unfoldable pub pop_buffer_state : Stacked → Option Stacked
pop_buffer_state g = elim (current g) [
  | none ↦ some g
  | some b ↦ (do
    g' ← delete_buffer (some b) g
    g'' ← set_current none g'
    resume_current (lower_top g''))
]

-- The scanner that yylex_init_extra makes: all is 0, and then yy_init_globals.
unfoldable pub init_globals : List (Option BufferState) → Stacked
init_globals buffers = record {
  buffers = buffers;
  stack = none;
  top = 0;
  started = false;
  input = none;
  n_chars = 0;
  text_ptr = 0;
  c_buf_p = 0;
  hold_char = 0;
  switched = false;
}

-- The `while` of yylex_destroy; `none` is also the end of the fuel.
unfoldable pub destroy_buffers : ℕ → Stacked → Option Stacked
destroy_buffers zero g = none
destroy_buffers (suc fuel) g = elim (current g) [
  | none ↦ some g
  | some b ↦ (do
    g1 ← delete_buffer (some b) g
    g2 ← set_current none g1
    g3 ← pop_buffer_state g2
    destroy_buffers fuel g3)
]

-- yylex_destroy: the buffers that are left. The stack and the scanner are freed.
unfoldable pub destroy : Stacked → Option (List (Option BufferState))
destroy g = do g' ← destroy_buffers 2 g; some g'.buffers

-- `junk n` is what malloc leaves in `n` bytes.
module _ (junk : ℕ → List ℕ) where
  -- yy_create_buffer
  unfoldable pub new_buffer : Option ℕ → ℕ → Stacked → Option (ℕ × Stacked)
  new_buffer file size g = do
    let b = length g.buffers
    let new : BufferState = record {
      ch_buf = junk (size + 2);
      buf_size = size;
      buf_chars = 0;
      buf_pos = 0;
      file = none;
      ours = true;
      fill_buffer = false;
      status = fresh;
    }
    g' ← init_buffer b file (record g { buffers = g.buffers ++ (some new ∷ []) })
    some (b, g')

  abbrev pub ensure_current : Stacked → Option Stacked
  ensure_current g = elim (current g) [
    | none ↦ (do (b, g') ← new_buffer g.input yy_buf_size (ensure_stack g); set_current (some b) g')
    | some b ↦ some g
  ]

  -- yyrestart
  unfoldable pub restart_on : Option ℕ → Stacked → Option Stacked
  restart_on file g = do
    g1 ← ensure_current g
    b ← current g1
    g2 ← init_buffer b file g1
    load_buffer_state g2

  -- The first part of yylex, where yyin is `stdin` unless it was set.
  unfoldable pub start_scanner : ℕ → Stacked → Option Stacked
  start_scanner stdin g =
      let begun = (do
        g' ← ensure_current (record g {
          started = true;
          input = elim g.input [ none ↦ some stdin | some f ↦ some f ];
        })
        load_buffer_state g') in
      if g.started then some g else begun
