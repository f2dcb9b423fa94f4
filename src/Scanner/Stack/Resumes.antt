-- ===== src/Scanner/Stack/Resumes.antt =====
-- yypush_buffer_state and then yypop_buffer_state: the scanner goes on where it was.
use projet_prog.Common.{
  ℕ, suc, ◌<◌, ◌≡◌, ◌≢◌, refl, sym, ap, ◌∙◌, true, none, some, List, get_or, length, set, eq→==,
  arith,
}
use projet_prog.Scanner.Buffer.Block.{◌>>=◌, peek, poke}
use projet_prog.Scanner.Stack.State.{
  BufferState, Stacked, current, set_current, buffer_at, store, load_buffer_state,
}
use projet_prog.Scanner.Stack.{
  save_current, enter_buffer, raise_top, push_buffer_state, delete_buffer, resume_current,
  pop_buffer_state,
}
use projet_prog.Scanner.Stack.Slots.{Written, put_lem, get_or_within, poke-peek}
use projet_prog.Scanner.Stack.Roomy.{Roomy, ensure_stack-Roomy}

-- What the program finds again of a scanner `g` that scanned `b`, whose buffer is `x`, when the buffer
-- `nb` on top of it is popped.
pub record Resumed (b nb : ℕ) (x : BufferState) (g g' : Stacked) : Type 0 where
  pub scanned : current g' ≡ some b
  pub top : g'.top ≡ g.top
  pub place : g'.c_buf_p ≡ g.c_buf_p
  pub chars : g'.n_chars ≡ g.n_chars
  pub hidden : g'.hold_char ≡ g.hold_char
  pub input : g'.input ≡ x.file
  pub buffers :
      (cs : List ℕ) × (poke x.ch_buf g.c_buf_p g.hold_char ≡ some cs)
      × (g'.buffers
          ≡ set
              (set g.buffers b
                (some (record x { ch_buf = cs; buf_pos = g.c_buf_p; buf_chars = g.n_chars })))
              nb
              none)

module _ (b nb : ℕ) (x y : BufferState) (g : Stacked) (c : ℕ) (scanned : current g ≡ some b)
    (below : buffer_at b g ≡ some x) (within : g.c_buf_p < length x.ch_buf)
    (new : buffer_at nb g ≡ some y) (first : peek y.ch_buf y.buf_pos ≡ some c)
    (distinct : nb ≢ b) where
  abbrev roomy : Roomy g
  roomy = ensure_stack-Roomy g b scanned

  abbrev saved_chars :
      (cs : List ℕ) × (poke x.ch_buf g.c_buf_p g.hold_char ≡ some cs)
      × (peek cs g.c_buf_p ≡ some g.hold_char)
  saved_chars = poke-peek x.ch_buf g.c_buf_p g.hold_char within

  abbrev saved : BufferState
  saved = record x { ch_buf = saved_chars.0; buf_pos = g.c_buf_p; buf_chars = g.n_chars }

  -- The buffers when `b` is saved, and when `nb` is deleted.
  abbrev with_saved : Written g.buffers b (some saved) none
  unfolding buffer_at
  with_saved = put_lem g.buffers b (some saved) none (get_or_within g.buffers b x below)

  found_new : get_or with_saved.array nb none ≡ some y
  unfolding buffer_at
  found_new = with_saved.elsewhere nb distinct ∙ new

  abbrev without_new : Written with_saved.array nb none none
  without_new =
      put_lem with_saved.array nb none none (get_or_within with_saved.array nb y found_new)

  -- The slots when `nb` is pushed, and when its slot is cleared, twice.
  abbrev pushed_slots : Written roomy.slots (suc g.top) (some nb) none
  pushed_slots = put_lem roomy.slots (suc g.top) (some nb) none roomy.room

  abbrev cleared_slots : Written pushed_slots.array (suc g.top) none none
  cleared_slots =
      put_lem pushed_slots.array (suc g.top) none none
        (omega (arith, roomy.room, pushed_slots.same_length))

  abbrev popped_slots : Written cleared_slots.array (suc g.top) none none
  popped_slots =
      put_lem cleared_slots.array (suc g.top) none none
        (omega (arith, roomy.room, pushed_slots.same_length, cleared_slots.same_length))

  found_slot : get_or popped_slots.array g.top none ≡ some b
  found_slot =
      popped_slots.elsewhere g.top (omega arith)
      ∙ cleared_slots.elsewhere g.top (omega arith)
      ∙ pushed_slots.elsewhere g.top (omega arith)
      ∙ roomy.kept
      ∙ scanned

  abbrev pushed : Stacked
  pushed = record g {
    buffers = with_saved.array;
    stack = some pushed_slots.array;
    top = suc g.top;
    n_chars = y.buf_chars;
    text_ptr = y.buf_pos;
    c_buf_p = y.buf_pos;
    input = y.file;
    hold_char = c;
    switched = true;
  }

  abbrev ensured : Stacked
  ensured = record g { stack = some roomy.slots }

  -- `b` is saved.
  abbrev raised : Stacked
  raised = record g { buffers = with_saved.array; stack = some roomy.slots; top = suc g.top }

  save_lem : save_current ensured ≡ some (record ensured { buffers = with_saved.array })
  unfolding save_current current buffer_at store
  save_lem =
      rw
        (
          save_current,
          current,
          roomy.kept ∙ scanned,
          below,
          ◌>>=◌,
          saved_chars.1,
          ◌>>=◌,
          with_saved.writes,
          ◌>>=◌,
        )
        refl

  raise_lem : raise_top (record ensured { buffers = with_saved.array }) ≡ raised
  unfolding raise_top current
  raise_lem = rw (raise_top, current, roomy.kept ∙ scanned) refl

  enter_lem : enter_buffer nb raised ≡ some pushed
  unfolding enter_buffer set_current load_buffer_state current buffer_at
  enter_lem =
      rw (pushed_slots.writes, ◌>>=◌, pushed_slots.here, ◌>>=◌, found_new, ◌>>=◌, first, ◌>>=◌) refl

  push_lem : push_buffer_state (some nb) g ≡ some pushed
  unfolding push_buffer_state
  push_lem =
      ap (λ h. save_current h >>= (λ g'. enter_buffer nb (raise_top g'))) roomy.ensured
      ∙ ap (λ o. o >>= (λ g'. enter_buffer nb (raise_top g'))) save_lem
      ∙ ap (enter_buffer nb) raise_lem
      ∙ enter_lem

  abbrev popped : Stacked
  popped = record g {
    buffers = without_new.array;
    stack = some popped_slots.array;
    text_ptr = g.c_buf_p;
    input = x.file;
    switched = true;
  }

  abbrev deleted : Stacked
  deleted = record pushed { buffers = without_new.array; stack = some cleared_slots.array }

  delete_lem : delete_buffer (some nb) pushed ≡ some deleted
  unfolding delete_buffer set_current current buffer_at store
  delete_lem =
      rw
        (
          pushed_slots.here,
          eq→== nb nb refl,
          cleared_slots.writes,
          ◌>>=◌,
          found_new,
          ◌>>=◌,
          without_new.writes,
          ◌>>=◌,
        )
        refl

  abbrev emptied : Stacked
  emptied = record deleted { stack = some popped_slots.array; top = g.top }

  found_saved : get_or without_new.array b none ≡ some saved
  found_saved = without_new.elsewhere b (λ e. distinct (sym e)) ∙ with_saved.here

  resume_lem : resume_current emptied ≡ some popped
  unfolding resume_current load_buffer_state current buffer_at
  resume_lem =
      rw
        (
          resume_current, current, found_slot, ◌>>=◌, found_slot, ◌>>=◌, found_saved, ◌>>=◌,
          saved_chars.2, ◌>>=◌,
        )
        refl

  pop_lem : pop_buffer_state pushed ≡ some popped
  unfolding pop_buffer_state set_current current
  pop_lem =
      rw
        (
          pop_buffer_state, current, pushed_slots.here, delete_lem, ◌>>=◌, popped_slots.writes,
          ◌>>=◌,
        )
        resume_lem

  -- A scanner that scans the buffer `b` and is given another one, `nb`, on top of it goes on where it
  -- was when that is popped: in `b`, at the same place, with the same character behind it, the number
  -- of characters, and the stream of `b`; the characters of `b` are those with the hidden one in its
  -- place. `nb` is deleted, and no other buffer is changed. Assumed: both buffers are live and not the
  -- same, the place is within the characters of `b`, and `nb` has a character at its own place.
  pub push_buffer_state-pop_buffer_state :
      (g' : Stacked) × ((push_buffer_state (some nb) g >>= pop_buffer_state) ≡ some g')
      × Resumed b nb x g g'
  unfolding current buffer_at
  push_buffer_state-pop_buffer_state = (
    popped,
    rw (push_lem, ◌>>=◌) pop_lem,
    record {
      scanned = found_slot;
      top = refl;
      place = refl;
      chars = refl;
      hidden = refl;
      input = refl;
      buffers = (
        saved_chars.0,
        saved_chars.1,
        without_new.is_set ∙ ap (λ bs. set bs nb none) with_saved.is_set,
      );
    },
  )
