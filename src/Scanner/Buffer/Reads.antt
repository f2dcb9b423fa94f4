-- ===== src/Scanner/Buffer/Reads.antt =====
-- What is relied on of `read` and of realloc, and a read behind the text in the buffer.
use mathlib.Core.List.{append_assoc, append-nil}
use projet_prog.Common.{
  ℕ, ◌+◌, ◌-◌, ◌*◌, ◌^◌, ◌≤◌, ◌<◌, ◌≡◌, ◌≢◌, refl, Option, some, List, [], ◌++◌, length,
  length-append, ltb, ltb→lt, ltb→ge, lt→ltb, if◌then◌else◌, Bool-cases, inl, inr, arith,
}
use projet_prog.Scanner.Buffer.State.{Status, fresh, normal, eof_pending, Guts, grow}
use projet_prog.Scanner.Buffer.{fill, refill}
use projet_prog.Scanner.Buffer.Block.{◌>>=◌, poke_all-append}

-- `read` gives at most the characters asked for, those that come next, and none only at the end.
pub record IsRead {Source : Type 0} (read : ℕ → Source → Option (List ℕ × Source))
    (pending : Source → List ℕ) : Type 0 where
  pub reads :
      (n : ℕ) (src : Source)
      → 0 < n
      → (cs : List ℕ) × (src' : Source) × (read n src ≡ some (cs, src'))
        × (length cs ≤ n)
        × (pending src ≡ cs ++ pending src')
        × (cs ≡ [] → pending src ≡ [])

asked_bounds :
    (free : ℕ)
    → 0 < free
    → (0 < (if ltb 8192 free then 8192 else free)) × ((if ltb 8192 free then 8192 else free) ≤ free)
asked_bounds free h = ground arith

module _ (junk : ℕ → List ℕ) (new : (n : ℕ) → length (junk n) ≡ n) where
  -- The buffer has room behind the text, and more room where it had to grow.
  grow_lem :
      (moved size : ℕ) (b : List ℕ)
      → length b ≡ size + 2
      → moved ≤ size
      → 2 ≤ size
      → moved + 1 < 2 ^ 30
      → (size' : ℕ) × (pad : List ℕ) × (grow junk 2 moved size b ≡ some (size', b ++ pad))
        × (length b + length pad ≡ size' + 2)
        × (moved + 1 < size')
  unfolding grow
  grow_lem moved size b n fits two small = elim (Bool-cases (ltb (moved + 1) size)) [
    | inl e ↦ (size, [], rw (e, append-nil b), omega (arith, n), ltb→lt _ _ e)
    | inr e ↦ (
      size * 2,
      junk size,
      rw (
        e,
        lt→ltb (size * 2) (2 ^ 31) (omega (arith, ltb→ge _ _ e)),
        lt→ltb (moved + 1) (size * 2) (omega arith),
      ),
      omega (arith, n, new size),
      omega arith,
    )
  ]

module _ {Source : Type 0} (pending : Source → List ℕ) where
  -- The block behind a read: the text, what was read, and room for the end of the buffer.
  pub record Read (moved : List ℕ) (st : Status) (g : Guts) (src : Source)
      (r : Option (ℕ × Guts × Source)) : Type 0 where
    pub got : List ℕ
    pub rest : List ℕ
    pub size : ℕ
    pub src' : Source
    pub result :
        r
        ≡ some (
          length got,
          record g { ch_buf = moved ++ (got ++ rest); buf_size = size; buf_chars = length got },
          src',
        )
    pub room : length moved + length got ≤ size
    pub fits : length moved + length got + length rest ≡ size + 2
    pub two : 2 ≤ size
    pub next : pending src ≡ got ++ pending src'
    pub no_more : got ≡ [] → pending src ≡ []
    pub is_open : got ≢ [] → st ≢ eof_pending

module _ {Source : Type 0} (read : ℕ → Source → Option (List ℕ × Source)) (junk : ℕ → List ℕ)
    (pending : Source → List ℕ) (reading : IsRead read pending)
    (new : (n : ℕ) → length (junk n) ≡ n) where
  fill_lem :
      (moved rest : List ℕ) (g : Guts) (src : Source) (st : Status)
      → st ≢ eof_pending
      → length moved + length rest ≡ g.buf_size + 2
      → length moved ≤ g.buf_size
      → 2 ≤ g.buf_size
      → length moved + 1 < 2 ^ 30
      → Read pending moved st g src
          (fill read junk (length moved) (record g { ch_buf = moved ++ rest }) src)
  unfolding fill
  fill_lem moved rest g src st o n fits two small =
      let (size, pad, grown, m, room) =
        grow_lem junk new (length moved) g.buf_size (moved ++ rest)
          (omega (arith, length-append moved rest)) fits two small in
      let free = size - length moved - 1 in
      let asked : ℕ = if ltb 8192 free then 8192 else free in
      let few : (0 < asked) × (asked ≤ free) = asked_bounds free (omega (arith, room)) in
      let (got, src', e, short, next, no_more) = reading.reads asked src few.0 in
      let (rest', stored, k) =
        poke_all-append moved (rest ++ pad) got (length moved) refl
          (omega (arith, m, length-append moved rest, length-append rest pad)) in
      record {
        got = got;
        rest = rest';
        size = size;
        src' = src';
        result = rw (grown, ◌>>=◌, e, ◌>>=◌, append_assoc moved rest pad, stored, ◌>>=◌);
        room = omega arith;
        fits = omega (arith, m, length-append moved rest, length-append rest pad);
        two = omega (arith, room, two);
        next = next;
        no_more = no_more;
        is_open = λ _. o;
      }

  pub refill_lem :
      (moved rest : List ℕ) (g : Guts) (src : Source) (st : Status)
      → (st ≡ eof_pending → pending src ≡ [])
      → length moved + length rest ≡ g.buf_size + 2
      → length moved ≤ g.buf_size
      → 2 ≤ g.buf_size
      → length moved + 1 < 2 ^ 30
      → Read pending moved st g src
          (refill read junk st (length moved) (record g { ch_buf = moved ++ rest }) src)
  unfolding refill
  refill_lem moved rest g src fresh e n fits two small =
      fill_lem moved rest g src fresh (λ x. cc) n fits two small
  refill_lem moved rest g src normal e n fits two small =
      fill_lem moved rest g src normal (λ x. cc) n fits two small
  refill_lem moved rest g src eof_pending e n fits two small = record {
    got = [];
    rest = rest;
    size = g.buf_size;
    src' = src;
    result = refl;
    room = omega arith;
    fits = omega arith;
    two = two;
    next = refl;
    no_more = λ _. e refl;
    is_open = λ x. absurd (x refl);
  }
