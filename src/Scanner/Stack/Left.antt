-- ===== src/Scanner/Stack/Left.antt =====
-- yylex_destroy, on the buffers that the scanner has.
use projet_prog.Common.{ℕ, ◌≡◌, refl, ap, none, some, set, eq→==, arith}
use projet_prog.Scanner.Buffer.Block.{◌>>=◌}
use projet_prog.Scanner.Stack.State.{BufferState, Stacked, current, set_current, buffer_at, store}
use projet_prog.Scanner.Stack.{delete_buffer, pop_buffer_state, destroy_buffers, destroy}
use projet_prog.Scanner.Stack.Slots.{Written, put_lem, get_or_within}
use projet_prog.Scanner.Stack.Roomy.{Slot, current-Slot}

module _ (b : ℕ) (x : BufferState) (g : Stacked) (scanned : current g ≡ some b)
    (live : buffer_at b g ≡ some x) where
  abbrev slot : Slot g b
  slot = current-Slot g b scanned

  abbrev cleared : Written slot.slots g.top none none
  cleared = put_lem slot.slots g.top none none slot.within

  abbrev cleared_again : Written cleared.array g.top none none
  cleared_again =
      put_lem cleared.array g.top none none (omega (arith, slot.within, cleared.same_length))

  abbrev without : Written g.buffers b none none
  unfolding buffer_at
  without = put_lem g.buffers b none none (get_or_within g.buffers b x live)

  abbrev deleted : Stacked
  deleted = record g { buffers = without.array; stack = some cleared.array }

  delete_lem : delete_buffer (some b) g ≡ some deleted
  unfolding delete_buffer set_current buffer_at store
  delete_lem =
      rw
        (
          delete_buffer,
          scanned,
          eq→== b b refl,
          slot.holds,
          ◌>>=◌,
          cleared.writes,
          ◌>>=◌,
          live,
          ◌>>=◌,
          without.writes,
          ◌>>=◌,
        )
        refl

  abbrev emptied : Stacked
  emptied = record deleted { stack = some cleared_again.array }

  pop_lem : pop_buffer_state emptied ≡ some emptied
  unfolding pop_buffer_state current
  pop_lem = rw (pop_buffer_state, current, cleared_again.here) refl

  destroy_last : destroy_buffers 1 emptied ≡ some emptied
  unfolding destroy_buffers current
  destroy_last = rw (destroy_buffers, current, cleared_again.here) refl

  destroy_all : destroy_buffers 2 g ≡ some emptied
  unfolding destroy_buffers set_current
  destroy_all =
      rw
        (
          destroy_buffers, scanned, delete_lem, ◌>>=◌, set_current, cleared_again.writes, ◌>>=◌,
          pop_lem, ◌>>=◌,
        )
        destroy_last

  -- yylex_destroy comes to its end, and deletes the buffer that is scanned and no other: those below it
  -- on the stack are left. Assumed: the buffer that is scanned is live.
  pub destroy-set : destroy g ≡ some (set g.buffers b none)
  unfolding destroy
  destroy-set = rw (destroy_all, ◌>>=◌) (ap some without.is_set)
