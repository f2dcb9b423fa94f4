-- ===== src/Scanner/Stack/Started.antt =====
-- The one buffer that the program makes: the first call of yylex, and yylex_destroy behind it.
use projet_prog.Common.{
  ℕ, ◌≡◌, refl, ap, ◌∙◌, true, Option, none, some, List, [], ◌∷◌, ◌++◌, length, arith,
}
use projet_prog.Scanner.Buffer.Block.{◌>>=◌, peek, poke, two_first}
use projet_prog.Scanner.Buffer.State.{Guts, fresh, yy_buf_size, create_buffer, restart}
use projet_prog.Scanner.Stack.State.{
  BufferState, Stacked, put, current, set_current, buffer_at, store, load_buffer_state,
  flush_buffer, init_buffer,
}
use projet_prog.Scanner.Stack.{ensure_stack, init_globals, destroy, new_buffer, start_scanner}
use projet_prog.Scanner.Stack.Slots.{put-append, get_or-last, set-append}
use projet_prog.Scanner.Stack.Left.{destroy-set}

-- What yylex goes by, of a scanner and its current buffer.
abbrev pub guts_of : BufferState → Stacked → Guts
guts_of x g = record {
  ch_buf = x.ch_buf;
  buf_size = x.buf_size;
  buf_chars = x.buf_chars;
  status = x.status;
  n_chars = g.n_chars;
  hold_char = g.hold_char;
  text_ptr = g.text_ptr;
  c_buf_p = g.c_buf_p;
  last = (0, 0);
}

module _ (junk : ℕ → List ℕ) (new : (n : ℕ) → length (junk n) ≡ n) (bs : List (Option BufferState))
    (file : Option ℕ) where
  -- A scanner on a stream that was set, before its first token.
  abbrev pub opened : Stacked
  opened = record (init_globals bs) { input = file }

  abbrev pub given : ℕ → Option ℕ
  given stdin = elim file [ none ↦ some stdin | some f ↦ some f ]

  -- Its first buffer.
  abbrev pub first_buffer : List ℕ → Option ℕ → BufferState
  first_buffer rest input = record {
    ch_buf = 0 ∷ 0 ∷ rest;
    buf_size = yy_buf_size;
    buf_chars = 0;
    buf_pos = 0;
    file = input;
    ours = true;
    fill_buffer = true;
    status = fresh;
  }

  abbrev begun : Option ℕ → Stacked
  begun input = record (init_globals bs) { started = true; input = input; stack = some (none ∷ []) }

  abbrev made : List ℕ → Option ℕ → Stacked
  made rest input = record (begun input) { buffers = bs ++ (some (first_buffer rest input) ∷ []) }

  new_buffer_lem :
      (input : Option ℕ) (a b : ℕ) (rest : List ℕ)
      → junk 16386 ≡ a ∷ b ∷ rest
      → new_buffer junk input yy_buf_size (begun input) ≡ some (length bs, made rest input)
  unfolding new_buffer init_buffer flush_buffer buffer_at store current poke init_globals
  new_buffer_lem input a b rest e =
      rw
        (
          get_or-last bs _ none,
          ◌>>=◌,
          e,
          ◌>>=◌,
          put-append bs _ _,
          ◌>>=◌,
          get_or-last bs _ none,
          ◌>>=◌,
          put-append bs _ _,
          ◌>>=◌,
        )
        refl

  -- The first buffer is the current one, and nothing of it is read yet.
  abbrev scanning : List ℕ → Option ℕ → Stacked
  scanning rest input = record (made rest input) { stack = some (some (length bs) ∷ []) }

  start_scanner_lem :
      (stdin a b : ℕ) (rest : List ℕ)
      → junk 16386 ≡ a ∷ b ∷ rest
      → start_scanner junk stdin opened ≡ some (scanning rest (given stdin))
  unfolding start_scanner ensure_stack set_current load_buffer_state current buffer_at peek put
      init_globals
  start_scanner_lem stdin a b rest e =
      rw
        (
          new_buffer_lem (given stdin) a b rest e,
          ◌>>=◌,
          get_or-last bs (some (first_buffer rest (given stdin))) none,
          ◌>>=◌,
        )
        refl

  created :
      (input : Option ℕ) (a b : ℕ) (rest : List ℕ)
      → junk 16386 ≡ a ∷ b ∷ rest
      → create_buffer junk yy_buf_size
        ≡ some (guts_of (first_buffer rest input) (scanning rest input))
  unfolding create_buffer restart peek poke init_globals
  created input a b rest e = rw (create_buffer, restart, e, ◌>>=◌) refl

  -- The first call of yylex makes one buffer, which is scanned, on the stream that was set or else on
  -- `stdin`. With it the scanner is the one that `read_tokens` starts from, and yylex_destroy deletes
  -- it: no buffer is left but those there were. Assumed: malloc gives as many bytes as asked for.
  pub start_scanner-destroy :
      (stdin : ℕ)
      → (g : Stacked) × (x : BufferState) × (start_scanner junk stdin opened ≡ some g)
        × (current g ≡ some (length bs))
        × (buffer_at (length bs) g ≡ some x)
        × (x.file ≡ given stdin)
        × (g.input ≡ given stdin)
        × (create_buffer junk yy_buf_size ≡ some (guts_of x g))
        × (destroy g ≡ some (bs ++ (none ∷ [])))
  unfolding current buffer_at init_globals
  start_scanner-destroy stdin =
      let (a, b, rest, e) = two_first (junk 16386) (omega (arith, new 16386)) in
      let g = scanning rest (given stdin) in
      let x = first_buffer rest (given stdin) in
      let found = get_or-last bs (some x) none in
      (
        g,
        x,
        start_scanner_lem stdin a b rest e,
        refl,
        found,
        refl,
        refl,
        created (given stdin) a b rest e,
        destroy-set (length bs) x g refl found ∙ ap some (set-append bs (some x) none),
      )
