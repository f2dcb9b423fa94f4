-- ===== src/Scanner/Buffer/Ended.antt =====
-- The action of the end of the buffer, up to its two cases.
use mathlib.Core.List.{append_assoc}
use projet_prog.Common.{
  ℕ, suc, ◌+◌, ◌-◌, ◌≡◌, ◌≢◌, refl, sym, ap, ◌∙◌, Option, List, [], ◌∷◌, ◌++◌, length,
  length-append, leb, if◌then◌else◌, arith,
}
use projet_prog.Scanner.{accept}
use projet_prog.Scanner.Buffer.State.{Status, fresh, normal, eof_pending, Guts, pick}
use projet_prog.Scanner.Buffer.{Goto, Lexed, act, end_of_buffer, at_nul, behind_buffer, next_buffer}
use projet_prog.Scanner.Buffer.Block.{◌>>=◌, length-snoc}
use projet_prog.Scanner.Buffer.Held.{
  Holds, started, before_action_lem, restore_lem, start_buffer_lem,
}

started-ne-fresh : (s : Status) → started s ≢ fresh
started-ne-fresh fresh = λ e. cc
started-ne-fresh normal = λ e. cc
started-ne-fresh eof_pending = λ e. cc

pub started-eof : (s : Status) → started s ≡ eof_pending → s ≡ eof_pending
started-eof fresh e = cc
started-eof normal e = cc
started-eof eof_pending e = refl

-- The text `ts` and the NUL behind it, in the block, as the action finds them.
abbrev pub marked : Guts → List ℕ → List ℕ → ℕ → List ℕ → Guts
marked g front ts d t = record g {
  ch_buf = ((front ++ ts) ++ (0 ∷ [])) ++ (d ∷ t);
  status = started g.status;
  hold_char = d;
  text_ptr = length front;
  c_buf_p = suc (length front + length ts);
}

regroup :
    (front ts behind end t : List ℕ) (d : ℕ)
    → behind ++ end ≡ 0 ∷ d ∷ t
    → ((front ++ ts) ++ (0 ∷ [])) ++ (d ∷ t) ≡ front ++ ((ts ++ behind) ++ end)
regroup front ts behind end t d e =
    append_assoc (front ++ ts) (0 ∷ []) (d ∷ t)
    ∙ append_assoc front ts (0 ∷ d ∷ t)
    ∙ ap (λ l. front ++ (ts ++ l)) (sym e)
    ∙ ap (◌++◌ front) (sym (append_assoc ts behind end))

pub marked-Holds :
    (g : Guts) (front ts behind : List ℕ) (d : ℕ) (t : List ℕ)
    → (h : Holds g front (ts ++ behind)) → behind ++ (0 ∷ 0 ∷ h.junk) ≡ 0 ∷ d ∷ t
    → Holds (marked g front ts d t) front (ts ++ behind)
marked-Holds g front ts behind d t h e =
    let same = regroup front ts behind (0 ∷ 0 ∷ h.junk) t d e in
    record {
      junk = h.junk;
      block = same;
      chars = h.chars;
      size = ap length (same ∙ sym h.block) ∙ h.size;
      room = h.room;
      counted = λ x. absurd (started-ne-fresh g.status x);
    }

pub marked-ne-fresh :
    (g : Guts) (front ts : List ℕ) (d : ℕ) (t : List ℕ) → (marked g front ts d t).status ≢ fresh
marked-ne-fresh g front ts d t = started-ne-fresh g.status

module _ {Source : Type 0} (read : ℕ → Source → Option (List ℕ × Source)) (junk : ℕ → List ℕ)
    (goto : Goto Source) where
  -- A NUL in the text, or the end of what was read.
  abbrev pub ending : ℕ → Guts → Source → Lexed Source
  ending n g src =
      if leb g.c_buf_p g.n_chars
      then at_nul goto n g src
      else (do (what, g', src') ← next_buffer read junk g src; behind_buffer goto n what g' src')

  pub act_end :
      (g : Guts) (front ts behind : List ℕ) (src : Source) (s p d : ℕ) (t : List ℕ)
      → (h : Holds g front (ts ++ behind)) → behind ++ (0 ∷ 0 ∷ h.junk) ≡ 0 ∷ d ∷ t
      → pick (s, p) g.last ≡ (3, suc (length front + length ts))
      → act read junk goto (length front) s p g src ≡ ending (length ts) (marked g front ts d t) src
  unfolding act end_of_buffer accept
  act_end g front ts behind src s p d t h e f =
      let q = suc (length front + length ts) in
      let before = (front ++ ts) ++ (0 ∷ []) in
      let n : q ≡ length before =
        omega (arith, length-snoc (front ++ ts) 0, length-append front ts) in
      let block : g.ch_buf ≡ before ++ (d ∷ t) =
        h.block ∙ sym (regroup front ts behind (0 ∷ 0 ∷ h.junk) t d e) in
      let k : q - length front - 1 ≡ length ts = omega arith in
      let cut : Guts = record g {
        ch_buf = before ++ (0 ∷ t);
        hold_char = d;
        text_ptr = length front;
        c_buf_p = q;
      } in
      rw (
        f,
        before_action_lem g before d t (length front) q block n,
        ◌>>=◌,
        restore_lem cut before d t q refl refl n,
        ◌>>=◌,
        start_buffer_lem (record cut { ch_buf = before ++ (d ∷ t) }) h.counted,
        k,
      )
