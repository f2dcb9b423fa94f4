-- ===== src/Scanner/Stack/State.antt =====
-- The scanner with its stack of buffers in scanner.c, and the steps on its current buffer.
use projet_prog.Common.{
  ℕ, zero, suc, Bool, true, false, Option, none, some, List, [], ◌∷◌, ◌==◌, if◌then◌else◌, get_or,
}
use projet_prog.Scanner.Buffer.Block.{◌>>=◌, peek, poke}
use projet_prog.Scanner.Buffer.State.{Status, fresh}

-- struct yy_buffer_state with its array, which is freed with it. A pointer into the array is an index.
-- The array of yy_scan_buffer is not its own (`ours`).
pub record BufferState : Type 0 where
  pub ch_buf : List ℕ
  pub buf_size : ℕ
  pub buf_chars : ℕ
  pub buf_pos : ℕ
  pub file : Option ℕ
  pub ours : Bool
  pub fill_buffer : Bool
  pub status : Status

-- struct yyguts_t, and the buffers by address; `none` is one that was deleted. The length of `stack`
-- is yy_buffer_stack_max, and `none` in it is NULL. yy_c_buf_p and yytext_ptr point into the current
-- buffer.
pub record Stacked : Type 0 where
  pub buffers : List (Option BufferState)
  pub stack : Option (List (Option ℕ))
  pub top : ℕ
  pub started : Bool
  pub input : Option ℕ
  pub n_chars : ℕ
  pub text_ptr : ℕ
  pub c_buf_p : ℕ
  pub hold_char : ℕ
  pub switched : Bool

-- A write to an array of pointers; `none` is one outside it.
unfoldable pub put {ℓ} : {A : Type ℓ} → List A → ℕ → A → Option (List A)
put [] i v = none
put (x ∷ xs) zero v = some (v ∷ xs)
put (x ∷ xs) (suc i) v = do xs' ← put xs i v; some (x ∷ xs')

-- YY_CURRENT_BUFFER
unfoldable pub current : Stacked → Option ℕ
current g = elim g.stack [ none ↦ none | some s ↦ get_or s g.top none ]

-- An assignment to YY_CURRENT_BUFFER_LVALUE
unfoldable pub set_current : Option ℕ → Stacked → Option Stacked
set_current v g = do s ← g.stack; s' ← put s g.top v; some (record g { stack = some s' })

unfoldable pub buffer_at : ℕ → Stacked → Option BufferState
buffer_at b g = get_or g.buffers b none

unfoldable pub store : ℕ → Option BufferState → Stacked → Option Stacked
store b x g = do bs ← put g.buffers b x; some (record g { buffers = bs })

-- yy_load_buffer_state
unfoldable pub load_buffer_state : Stacked → Option Stacked
load_buffer_state g = do
  b ← current g
  x ← buffer_at b g
  c ← peek x.ch_buf x.buf_pos
  some (record g {
    n_chars = x.buf_chars;
    text_ptr = x.buf_pos;
    c_buf_p = x.buf_pos;
    input = x.file;
    hold_char = c;
  })

abbrev pub is_current : ℕ → Stacked → Bool
is_current b g = elim (current g) [ none ↦ false | some c ↦ c == b ]

-- yy_flush_buffer
unfoldable pub flush_buffer : ℕ → Stacked → Option Stacked
flush_buffer b g = do
  x ← buffer_at b g
  a ← poke x.ch_buf 0 0
  a' ← poke a 1 0
  let flushed = record x { ch_buf = a'; buf_chars = 0; buf_pos = 0; status = fresh }
  g' ← store b (some flushed) g
  let loaded = load_buffer_state g'
  if is_current b g' then loaded else some g'

-- yy_init_buffer
unfoldable pub init_buffer : ℕ → Option ℕ → Stacked → Option Stacked
init_buffer b file g = do
  g' ← flush_buffer b g
  x ← buffer_at b g'
  store b (some (record x { file = file; fill_buffer = true })) g'
