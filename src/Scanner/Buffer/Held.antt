-- ===== src/Scanner/Buffer/Held.antt =====
-- What the block of the buffer holds, and what the scanner does to it around an action.
use projet_prog.Common.{
  ℕ, ◌+◌, ◌-◌, ◌≤◌, ◌≡◌, ◌⊎◌, inl, inr, refl, ap, ◌∙◌, some, List, ◌∷◌, ◌++◌, length, take, drop,
  take-append, drop-append, arith,
}
use projet_prog.Scanner.Buffer.State.{
  Status, fresh, normal, eof_pending, Guts, before_action, restore, start_buffer,
  get_previous_state, previous_state,
}
use projet_prog.Scanner.Buffer.Block.{◌>>=◌, peek-append, poke-append}

-- The block holds `front`, the characters `cs` that are still to be read, and the end of the buffer.
pub record Holds (g : Guts) (front cs : List ℕ) : Type 0 where
  pub junk : List ℕ
  pub block : g.ch_buf ≡ front ++ (cs ++ (0 ∷ 0 ∷ junk))
  pub chars : g.n_chars ≡ length front + length cs
  pub size : length g.ch_buf ≡ g.buf_size + 2
  pub room : 2 ≤ g.buf_size
  pub counted : g.status ≡ fresh → g.buf_chars ≡ g.n_chars

-- A token in the block is cut off by a NUL in place of the character behind it, which is kept.
pub before_action_lem :
    (g : Guts) (before : List ℕ) (d : ℕ) (t : List ℕ) (bp p : ℕ)
    → g.ch_buf ≡ before ++ (d ∷ t)
    → p ≡ length before
    → before_action bp p g
      ≡ some (record g { ch_buf = before ++ (0 ∷ t); hold_char = d; text_ptr = bp; c_buf_p = p })
unfolding before_action
before_action_lem g before d t bp p e n =
    rw (e, peek-append before t d p n, ◌>>=◌, poke-append before t d 0 p n, ◌>>=◌)

-- The character comes back.
pub restore_lem :
    (g : Guts) (before : List ℕ) (d : ℕ) (t : List ℕ) (p : ℕ)
    → g.ch_buf ≡ before ++ (0 ∷ t)
    → g.hold_char ≡ d
    → p ≡ length before
    → restore p g ≡ some (record g { ch_buf = before ++ (d ∷ t) })
unfolding restore
restore_lem g before d t p e h n = rw (e, h, poke-append before t 0 d p n, ◌>>=◌)

-- The text between two positions.
pub take-drop-append :
    (front text rest : List ℕ) (bp n : ℕ)
    → bp ≡ length front
    → n ≡ length text
    → take n (drop bp (front ++ (text ++ rest))) ≡ text
take-drop-append front text rest bp n e f =
    rw (e, f, drop-append front (text ++ rest), take-append text rest)

pub get_previous_state_lem :
    (g : Guts) (front text rest : List ℕ) (n : ℕ)
    → g.ch_buf ≡ front ++ (text ++ rest)
    → g.text_ptr ≡ length front
    → n ≡ g.text_ptr + length text
    → get_previous_state (record g { c_buf_p = n }) ≡ (
      (previous_state text 1 g.text_ptr g.last).0,
      record g { c_buf_p = n; last = (previous_state text 1 g.text_ptr g.last).1 },
    )
unfolding get_previous_state
get_previous_state_lem g front text rest n e bp f =
    let read : take (n - g.text_ptr) (drop g.text_ptr g.ch_buf) ≡ text =
      ap (λ b. take (n - g.text_ptr) (drop g.text_ptr b)) e
      ∙ take-drop-append front text rest g.text_ptr (n - g.text_ptr) bp (omega arith) in
    ap
      (λ l. (
        (previous_state l 1 g.text_ptr g.last).0,
        record g { c_buf_p = n; last = (previous_state l 1 g.text_ptr g.last).1 },
      ))
      read

-- The status behind the first end of a buffer.
abbrev pub started : Status → Status
started fresh = normal
started normal = normal
started eof_pending = eof_pending

pub Status-cases : (s : Status) → (s ≡ fresh) ⊎ ((s ≡ normal) ⊎ (s ≡ eof_pending))
Status-cases fresh = inl refl
Status-cases normal = inr (inl refl)
Status-cases eof_pending = inr (inr refl)

pub start_buffer_lem :
    (g : Guts)
    → (g.status ≡ fresh → g.buf_chars ≡ g.n_chars)
    → start_buffer g ≡ record g { status = started g.status }
unfolding start_buffer
start_buffer_lem g counted = elim (Status-cases g.status) [
  | inl e ↦ ground (arith, counted e)
  | inr (inl e) ↦ ground arith
  | inr (inr e) ↦ ground arith
]
