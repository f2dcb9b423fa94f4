-- ===== src/Scanner/Buffer/Refilled.antt =====
-- yy_get_next_buffer: what the buffer holds behind it.
use mathlib.Core.List.{append_assoc}
use projet_prog.Common.{
  ℕ, suc, ◌+◌, ◌-◌, ◌^◌, ◌≤◌, ◌<◌, ◌≡◌, ◌≢◌, refl, sym, ap, ◌∙◌, false, Option, some, List, [], ◌∷◌,
  ◌++◌, length, length-append, ge→ltb, ◌==◌, arith,
}
use projet_prog.Scanner.Buffer.State.{
  fresh, eof_pending, Guts, Filled, continue_scan, end_of_file, last_match, at_end, restart,
  end_buffer, extend, finish_buffer,
}
use projet_prog.Scanner.Buffer.{next_buffer}
use projet_prog.Scanner.Buffer.Block.{
  ◌>>=◌, peek, poke, poke-append, move, move_front, snoc_append, length-snoc,
}
use projet_prog.Scanner.Buffer.Held.{Holds}
use projet_prog.Scanner.Buffer.Reads.{IsRead, refill_lem}

pub end_buffer_lem :
    (g : Guts) (xs r : List ℕ) (a b n : ℕ)
    → g.ch_buf ≡ xs ++ (a ∷ b ∷ r)
    → n ≡ length xs
    → end_buffer n g ≡ some (record g { ch_buf = xs ++ (0 ∷ 0 ∷ r); n_chars = n; text_ptr = 0 })
unfolding end_buffer
end_buffer_lem g xs r a b n e f =
    let second : poke (xs ++ (0 ∷ b ∷ r)) (suc n) 0 ≡ some (xs ++ (0 ∷ 0 ∷ r)) =
      rw (← snoc_append xs (b ∷ r) 0) (
        poke-append (xs ++ (0 ∷ [])) r b 0 (suc n) (omega (arith, length-snoc xs 0))
        ∙ ap some (snoc_append xs (0 ∷ r) 0)) in
    rw (e, poke-append xs (b ∷ r) a 0 n f, ◌>>=◌, second, ◌>>=◌)

-- Nothing is extended where what was read fits.
extend_lem :
    (junk : ℕ → List ℕ) (n moved : ℕ) (g : Guts)
    → n + moved ≤ g.buf_size
    → extend junk n moved g ≡ g
unfolding extend
extend_lem junk n moved g h = rw (ge→ltb g.buf_size (n + moved) h)

suc_ne_zero : (n : ℕ) → (suc n == 0) ≡ false
suc_ne_zero n = ground arith

module _ {Source : Type 0} (pending : Source → List ℕ) where
  -- Behind the text `ts` that was in the buffer: the end of the file, or of a text that is left, or
  -- more characters.
  abbrev pub Refilled : List ℕ → Source → Filled → Guts → Source → Type 0
  Refilled ts src end_of_file g src' = (ts ≡ []) × (pending src ≡ [])
  Refilled ts src last_match g src' =
      (ts ≢ []) × (pending src ≡ []) × (pending src' ≡ []) × Holds (record g { text_ptr = 0 }) [] ts
  Refilled ts src continue_scan g src' =
      (c : ℕ) × (cs : List ℕ) × (pending src ≡ c ∷ (cs ++ pending src'))
      × Holds (record g { text_ptr = 0 }) [] (ts ++ (c ∷ cs))
      × (g.status ≢ eof_pending)

  abbrev pub Result : List ℕ → Source → Option (Filled × Guts × Source) → Type 0
  Result ts src o =
      (what : Filled) × (g : Guts) × (src' : Source) × (o
        ≡ some (what, record g { text_ptr = 0 }, src'))
      × Refilled ts src what g src'

abbrev pub restarted : Guts → List ℕ → Guts
restarted g r = record g {
  ch_buf = 0 ∷ 0 ∷ r;
  buf_chars = 0;
  status = fresh;
  n_chars = 0;
  hold_char = 0;
  text_ptr = 0;
  c_buf_p = 0;
}

pub restart_lem :
    (g : Guts) (x y : ℕ) (r : List ℕ) → g.ch_buf ≡ x ∷ y ∷ r → restart g ≡ some (restarted g r)
unfolding restart poke peek
restart_lem g x y r e = rw e

module _ {Source : Type 0} (read : ℕ → Source → Option (List ℕ × Source)) (junk : ℕ → List ℕ)
    (pending : Source → List ℕ) (reading : IsRead read pending)
    (new : (n : ℕ) → length (junk n) ≡ n) where
  finish_lem :
      (ts got rest : List ℕ) (g : Guts) (src src' : Source)
      → g.ch_buf ≡ ts ++ (got ++ rest)
      → g.status ≢ fresh
      → length ts + length got ≤ g.buf_size
      → length ts + length got + length rest ≡ g.buf_size + 2
      → 2 ≤ g.buf_size
      → pending src ≡ got ++ pending src'
      → (got ≡ [] → pending src ≡ [])
      → (got ≢ [] → g.status ≢ eof_pending)
      → Result pending ts src (finish_buffer junk (length ts) (length got) g src')
  unfolding finish_buffer at_end
  finish_lem ts got [] g src src' b s room fits two next no_more o = absurd (omega arith)
  finish_lem ts got (x ∷ []) g src src' b s room fits two next no_more o = absurd (omega arith)
  finish_lem [] [] (x ∷ y ∷ r) g src src' b s room fits two next no_more o = (
    end_of_file,
    restarted g r,
    src',
    rw (
      restart_lem g x y r b,
      ◌>>=◌,
      extend_lem junk 0 0 (restarted g r) (omega arith),
      end_buffer_lem (restarted g r) [] r 0 0 0 refl refl,
      ◌>>=◌,
    ),
    (refl, no_more refl),
  )
  finish_lem (t ∷ ts) [] (x ∷ y ∷ r) g src src' b s room fits two next no_more o = (
    last_match,
    record g {
      ch_buf = (t ∷ ts) ++ (0 ∷ 0 ∷ r);
      status = eof_pending;
      n_chars = 0 + length (t ∷ ts);
      text_ptr = 0;
    },
    src',
    rw (
      suc_ne_zero (length ts),
      ◌>>=◌,
      extend_lem junk 0 (length (t ∷ ts)) (record g { status = eof_pending }) (omega arith),
      end_buffer_lem (record g { status = eof_pending }) (t ∷ ts) r x y (0 + length (t ∷ ts)) b
          (omega arith),
      ◌>>=◌,
    ),
    (
      (λ e. cc),
      no_more refl,
      sym next ∙ no_more refl,
      record {
        junk = r;
        block = refl;
        chars = omega arith;
        size = omega (arith, length-append ts (0 ∷ 0 ∷ r));
        room = two;
        counted = λ e. cc;
      },
    ),
  )
  finish_lem ts (c ∷ cs) (x ∷ y ∷ r) g src src' b s room fits two next no_more o = (
    continue_scan,
    record g {
      ch_buf = (ts ++ (c ∷ cs)) ++ (0 ∷ 0 ∷ r);
      n_chars = length (c ∷ cs) + length ts;
      text_ptr = 0;
    },
    src',
    rw (
      suc_ne_zero (length cs),
      ◌>>=◌,
      extend_lem junk (length (c ∷ cs)) (length ts) g (omega arith),
      end_buffer_lem g (ts ++ (c ∷ cs)) r x y (length (c ∷ cs) + length ts)
          (b ∙ sym (append_assoc ts (c ∷ cs) (x ∷ y ∷ r)))
          (omega (arith, length-append ts (c ∷ cs))),
      ◌>>=◌,
    ),
    (
      c,
      cs,
      next,
      record {
        junk = r;
        block = refl;
        chars = omega (arith, length-append ts (c ∷ cs));
        size = omega (arith, length-append (ts ++ (c ∷ cs)) (0 ∷ 0 ∷ r), length-append ts (c ∷ cs));
        room = two;
        counted = λ e. absurd (s e);
      },
      o (λ e. cc),
    ),
  )

  -- The text was moved to the start of the block.
  read_behind :
      (g : Guts) (ts rest : List ℕ) (src : Source)
      → g.c_buf_p ≤ g.n_chars + 1
      → g.c_buf_p - g.text_ptr - 1 ≡ length ts
      → move (g.c_buf_p - g.text_ptr - 1) 0 g.text_ptr g.ch_buf ≡ some (ts ++ rest)
      → length ts + length rest ≡ g.buf_size + 2
      → length ts ≤ g.buf_size
      → 2 ≤ g.buf_size
      → g.status ≢ fresh
      → (g.status ≡ eof_pending → pending src ≡ [])
      → length ts + 1 < 2 ^ 30
      → Result pending ts src (next_buffer read junk g src)
  unfolding next_buffer
  read_behind g ts rest src inside moved copied size short two s ended small =
      let r =
        refill_lem read junk pending reading new ts rest g src g.status ended size short two
          small in
      rw (ge→ltb (g.n_chars + 1) g.c_buf_p inside, copied, ◌>>=◌, moved, r.result, ◌>>=◌)
        (finish_lem ts r.got r.rest
          (record g {
            ch_buf = ts ++ (r.got ++ r.rest);
            buf_size = r.size;
            buf_chars = length r.got;
          })
          src r.src' refl s r.room r.fits r.two r.next r.no_more r.is_open)

  pub next_buffer_lem :
      (g : Guts) (front ts : List ℕ) (src : Source)
      → Holds g front ts
      → g.text_ptr ≡ length front
      → g.c_buf_p ≡ suc (length front + length ts)
      → g.status ≢ fresh
      → (g.status ≡ eof_pending → pending src ≡ [])
      → length ts + 1 < 2 ^ 30
      → Result pending ts src (next_buffer read junk g src)
  next_buffer_lem g front ts src h start end s ended small =
      let moved : g.c_buf_p - g.text_ptr - 1 ≡ length ts = omega arith in
      let n : length front + (length ts + (length h.junk + 2)) ≡ g.buf_size + 2 = omega (
        arith,
        h.size,
        ap length h.block,
        length-append front (ts ++ (0 ∷ 0 ∷ h.junk)),
        length-append ts (0 ∷ 0 ∷ h.junk),
      ) in
      let (rest, copied, k) =
        move_front g.ch_buf front ts (0 ∷ 0 ∷ h.junk) (g.c_buf_p - g.text_ptr - 1) g.text_ptr
          h.block moved start in
      read_behind g ts rest src (omega (arith, h.chars)) moved copied (omega (arith, k))
        (omega arith) h.room s ended small
