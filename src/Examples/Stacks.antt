-- ===== src/Examples/Stacks.antt =====
-- The theorems on the buffer stack of the scanner, at a scanner with two buffers, of which it scans the
-- first, at its third character.
use projet_prog.Common.{
  ℕ, zero, suc, ◌≡◌, refl, ap, true, false, none, some, List, [], ◌∷◌, set, length, arith,
}
use projet_prog.Scanner.Buffer.Block.{◌>>=◌, peek}
use projet_prog.Scanner.Buffer.State.{fresh, normal, yy_buf_size, create_buffer}
use projet_prog.Scanner.Stack.State.{BufferState, Stacked, current, buffer_at}
use projet_prog.Scanner.Stack.{destroy, start_scanner, push_buffer_state, pop_buffer_state}
use projet_prog.Scanner.Stack.Resumes.{Resumed, push_buffer_state-pop_buffer_state}
use projet_prog.Scanner.Stack.Left.{destroy-set}
use projet_prog.Scanner.Stack.Started.{opened, guts_of, start_scanner-destroy}

-- "++-" on the stream 4, of which the first two tokens were read.
abbrev received : BufferState
received = record {
  ch_buf = b'+' ∷ b'+' ∷ 0 ∷ 0 ∷ 0 ∷ [];
  buf_size = 3;
  buf_chars = 3;
  buf_pos = 0;
  file = some 4;
  ours = true;
  fill_buffer = true;
  status = normal;
}

-- A buffer on the stream 7 that was just made.
abbrev included : BufferState
included = record {
  ch_buf = 0 ∷ 0 ∷ 85 ∷ [];
  buf_size = 1;
  buf_chars = 0;
  buf_pos = 0;
  file = some 7;
  ours = true;
  fill_buffer = true;
  status = fresh;
}

abbrev scanner : Stacked
scanner = record {
  buffers = some received ∷ some included ∷ [];
  stack = some (some 0 ∷ []);
  top = 0;
  started = true;
  input = some 4;
  n_chars = 3;
  text_ptr = 1;
  c_buf_p = 2;
  hold_char = b'-';
  switched = false;
}

push_buffer_state-pop_buffer_state_example :
    (g' : Stacked) × ((push_buffer_state (some 1) scanner >>= pop_buffer_state) ≡ some g')
    × Resumed 0 1 received scanner g'
unfolding current buffer_at peek
push_buffer_state-pop_buffer_state_example =
    push_buffer_state-pop_buffer_state 0 1 received included scanner 0 refl refl (omega arith) refl
      refl (λ e. absurd (omega (arith, e)))

-- Both buffers are on the stack.
abbrev stacked : Stacked
stacked = record scanner { stack = some (some 0 ∷ some 1 ∷ []); top = 1; input = some 7 }

-- The buffer below the top is left.
destroy-set_example : destroy stacked ≡ some (set (some received ∷ some included ∷ []) 1 none)
unfolding current buffer_at
destroy-set_example = destroy-set 1 included stacked refl refl

-- What malloc leaves.
abbrev junk : ℕ → List ℕ
junk zero = []
junk (suc n) = 85 ∷ junk n

length-junk : (n : ℕ) → length (junk n) ≡ n
length-junk zero = refl
length-junk (suc n) = ap suc (length-junk n)

start_scanner-destroy_example :
    (g : Stacked) × (x : BufferState) × (start_scanner junk 0 (opened junk length-junk [] (some 4))
      ≡ some g)
    × (current g ≡ some 0)
    × (buffer_at 0 g ≡ some x)
    × (x.file ≡ some 4)
    × (g.input ≡ some 4)
    × (create_buffer junk yy_buf_size ≡ some (guts_of x g))
    × (destroy g ≡ some (none ∷ []))
start_scanner-destroy_example = start_scanner-destroy junk length-junk [] (some 4) 0
