-- ===== src/Scanner/Stack/Texts.antt =====
-- yy_scan_buffer, yy_scan_bytes and yy_scan_string: scanning characters in memory.
use projet_prog.Common.{
  ℕ, zero, suc, ◌+◌, ◌-◌, ◌≤◌, ◌≡◌, refl, Bool, true, false, not, ◌||◌, Option, none, some, List,
  [], ◌∷◌, ◌++◌, ltb, ◌==◌, if◌then◌else◌, get_or, length, length-append, arith,
}
use projet_prog.Scanner.Buffer.Block.{◌>>=◌, peek}
use projet_prog.Scanner.Buffer.State.{fresh}
use projet_prog.Scanner.Stack.State.{
  BufferState, Stacked, put, current, set_current, buffer_at, store, load_buffer_state,
}
use projet_prog.Scanner.Stack.{
  ensure_stack, save_current, enter_buffer, switch_to_buffer, init_globals,
}
use projet_prog.Scanner.Stack.Slots.{put-append, get_or-last}

-- The buffer that yy_scan_buffer makes of characters that are not its own.
unfoldable pub memory_buffer : List ℕ → Bool → BufferState
memory_buffer base ours = record {
  ch_buf = base;
  buf_size = length base - 2;
  buf_chars = length base - 2;
  buf_pos = 0;
  file = none;
  ours = ours;
  fill_buffer = false;
  status = fresh;
}

-- yy_scan_buffer of a block; `none` for the buffer is NULL, where the block does not end as it should.
unfoldable pub scan_buffer : List ℕ → Stacked → Option (Option ℕ × Stacked)
scan_buffer base g =
    let b = length g.buffers in
    let size = length base in
    let scanned : Option (Option ℕ × Stacked) = (do
      g' ←
          switch_to_buffer b
            (record g { buffers = g.buffers ++ (some (memory_buffer base false) ∷ []) })
      some (some b, g')) in
    if ltb size 2 || (not (get_or base (size - 2) 0 == 0) || not (get_or base (size - 1) 0 == 0))
    then some (none, g)
    else scanned

-- yy_scan_bytes, for fewer than 2 ^ 31 - 2 of them; a NULL of yy_scan_buffer ends the program.
unfoldable pub scan_bytes : List ℕ → Stacked → Option (ℕ × Stacked)
scan_bytes bytes g = do
  (scanned, g') ← scan_buffer (bytes ++ (0 ∷ 0 ∷ [])) g
  b ← scanned
  x ← buffer_at b g'
  g'' ← store b (some (record x { ours = true })) g'
  some (b, g'')

-- The characters before the first NUL; without one, strlen leaves the block.
unfoldable pub until_nul : List ℕ → Option (List ℕ)
until_nul [] = none
until_nul (c ∷ cs) =
    let rest = (do s ← until_nul cs; some (c ∷ s)) in if c == 0 then some [] else rest

-- yy_scan_string
unfoldable pub scan_string : List ℕ → Stacked → Option (ℕ × Stacked)
scan_string block g = do s ← until_nul block; scan_bytes s g

length-ended : (bytes : List ℕ) → length (bytes ++ (0 ∷ 0 ∷ [])) ≡ length bytes + 2
length-ended bytes = length-append bytes (0 ∷ 0 ∷ [])

get_or-ended : (bytes : List ℕ) (i : ℕ) → length bytes ≤ i → get_or (bytes ++ (0 ∷ 0 ∷ [])) i 0 ≡ 0
get_or-ended [] zero h = refl
get_or-ended [] (suc zero) h = refl
get_or-ended [] (suc (suc i)) h = refl
get_or-ended (c ∷ bytes) zero h = absurd (omega arith)
get_or-ended (c ∷ bytes) (suc i) h = get_or-ended bytes i (omega arith)

-- The scanner that scans the bytes, where none was scanned before.
abbrev pub Scans : List ℕ → Stacked → Stacked → Type 0
Scans bytes g g' =
    (current g' ≡ some (length g.buffers))
    × (g'.buffers ≡ g.buffers ++ (some (memory_buffer (bytes ++ (0 ∷ 0 ∷ [])) true) ∷ []))
    × (g'.n_chars ≡ length bytes)
    × (g'.c_buf_p ≡ 0)

peek-ended : (bytes : List ℕ) → (c : ℕ) × (peek (bytes ++ (0 ∷ 0 ∷ [])) 0 ≡ some c)
unfolding peek
peek-ended [] = (0, refl)
peek-ended (c ∷ bytes) = (c, refl)

module _ (bytes : List ℕ) (bs : List (Option BufferState)) where
  abbrev block : List ℕ
  block = bytes ++ (0 ∷ 0 ∷ [])

  -- The scanner with the buffer, whose array is the caller's or its own.
  abbrev entered : Bool → ℕ → Stacked
  entered ours c = record (init_globals bs) {
    buffers = bs ++ (some (memory_buffer block ours) ∷ []);
    stack = some (some (length bs) ∷ []);
    n_chars = length block - 2;
    hold_char = c;
    switched = true;
  }

  switch_lem :
      (c : ℕ)
      → peek block 0 ≡ some c
      → switch_to_buffer
          (length bs)
          (record (init_globals bs) { buffers = bs ++ (some (memory_buffer block false) ∷ []) })
        ≡ some (entered false c)
  unfolding switch_to_buffer ensure_stack save_current enter_buffer set_current load_buffer_state
      current buffer_at put init_globals memory_buffer
  switch_lem c e = rw (get_or-last bs (some (memory_buffer block false)) none, ◌>>=◌, e, ◌>>=◌) refl

  scan_buffer_lem :
      (c : ℕ)
      → peek block 0 ≡ some c
      → scan_buffer block (init_globals bs) ≡ some (some (length bs), entered false c)
  unfolding scan_buffer init_globals
  scan_buffer_lem c e =
      let long : ltb (length block) 2 ≡ false = ground (arith, length-ended bytes) in
      let one = get_or-ended bytes (length block - 2) (omega (arith, length-ended bytes)) in
      let two = get_or-ended bytes (length block - 1) (omega (arith, length-ended bytes)) in
      rw (scan_buffer, long, one, two) (rw (switch_lem c e, ◌>>=◌) refl)

  -- On a scanner that has scanned nothing, `scan_bytes` scans all the bytes, NULs too, from the first.
  pub scan_bytes-Scans :
      (g' : Stacked) × (scan_bytes bytes (init_globals bs) ≡ some (length bs, g'))
      × Scans bytes (init_globals bs) g'
  unfolding scan_bytes current init_globals buffer_at store memory_buffer
  scan_bytes-Scans =
      let (c, e) = peek-ended bytes in
      (
        entered true c,
        rw
            (
              scan_buffer_lem c e,
              ◌>>=◌,
              get_or-last bs (some (memory_buffer block false)) none,
              ◌>>=◌,
              put-append bs _ _,
              ◌>>=◌,
            )
            refl,
        (refl, refl, omega (arith, length-ended bytes), refl),
      )
