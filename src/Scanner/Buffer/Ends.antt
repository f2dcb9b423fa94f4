-- ===== src/Scanner/Buffer/Ends.antt =====
-- The end of the buffer, which is filled again or was the last.
use mathlib.Core.List.{append_assoc, append-nil}
use projet_prog.Common.{
  ℕ, zero, suc, ◌+◌, ◌*◌, ◌^◌, ◌<◌, ◌≡◌, refl, sym, ap, ◌∙◌, subst, false, Option, none, some, List,
  [], ◌∷◌, ◌++◌, All, length, length-append, leb, inl, inr, ◌⊎◌, arith,
}
use projet_prog.Common.Words.{IsByte}
use projet_prog.Scanner.Furthest.{furthest}
use projet_prog.Scanner.Buffer.State.{
  Guts, eof_pending, end_of_file, last_match, continue_scan, Filled, pick, previous_state,
}
use projet_prog.Scanner.Buffer.{act, lex, behind_buffer}
use projet_prog.Scanner.Buffer.Block.{◌>>=◌}
use projet_prog.Scanner.Buffer.Runs.{IsOpen}
use projet_prog.Scanner.Buffer.Held.{Holds, get_previous_state_lem}
use projet_prog.Scanner.Buffer.Acts.{Lexes, first_of}
use projet_prog.Scanner.Buffer.Reads.{IsRead}
use projet_prog.Scanner.Buffer.Refilled.{Refilled, next_buffer_lem}
use projet_prog.Scanner.Buffer.Ended.{
  marked, marked-Holds, marked-ne-fresh, started-eof, ending, act_end,
}
use projet_prog.Scanner.Buffer.Scans.{Holds-update, seen_furthest, found_in, Rounds}
use projet_prog.Scanner.Buffer.Nuls.{lex_acting, lex_nul}

module _ {Source : Type 0} (read : ℕ → Source → Option (List ℕ × Source)) (junk : ℕ → List ℕ)
    (pending : Source → List ℕ) (reading : IsRead read pending)
    (new : (n : ℕ) → length (junk n) ≡ n) where
  module _ (fuel : ℕ) (all front ts : List ℕ)
      (rounds : Rounds read junk pending reading new fuel all) (w : All IsByte all)
      (o : (bp : ℕ) (last : ℕ × ℕ) → IsOpen (previous_state ts 1 bp last).0) where
    -- Behind the read at the end of the buffer.
    behind_read :
        (src : Source) (what : Filled) (g : Guts) (src' : Source)
        → all ≡ ts ++ pending src
        → 2 * length (pending src) + 1 < suc fuel
        → Refilled pending ts src what g src'
        → Lexes pending all
            (behind_buffer (lex read junk fuel) (length ts) what (record g { text_ptr = 0 }) src')
    unfolding behind_buffer furthest
    behind_read src end_of_file g src' left enough (e, f) =
        subst (λ l. Lexes pending l (some (none, record g { text_ptr = 0; c_buf_p = 0 }, src')))
          (sym (left ∙ ap (λ l. l ++ pending src) e ∙ f))
          (record g { text_ptr = 0; c_buf_p = 0 }, src', refl)
    behind_read src last_match g src' left enough (n, none_left, none_left', h) =
        let mg : Guts = record g { text_ptr = 0 } in
        let ps = previous_state ts 1 0 g.last in
        let back =
          get_previous_state_lem mg [] ts (0 ∷ 0 ∷ h.junk) g.n_chars h.block refl h.chars in
        let (goto, e) = lex_acting read junk pending reading new fuel (omega arith) in
        let left' : all ≡ ts ++ pending src' =
          left ∙ ap (λ l. ts ++ l) (none_left ∙ sym none_left') in
        let whole : furthest ts 1 0 g.last ≡ pick (ps.0, g.n_chars) ps.1 =
          ap (λ l. furthest l 1 0 g.last) (sym (append-nil ts))
          ∙ seen_furthest ts [] 0 g.last refl h.chars in
        let more : furthest (ts ++ pending src') 1 0 g.last ≡ pick (ps.0, g.n_chars) ps.1 =
          ap (λ l. furthest l 1 0 g.last) (ap (λ l. ts ++ l) none_left' ∙ append-nil ts) ∙ whole in
        rw (back, e)
          (subst
            (λ l. Lexes pending l (
              act read junk goto 0 ps.0 g.n_chars (record mg { c_buf_p = g.n_chars; last = ps.1 })
                src'))
            (sym left')
            (found_in read junk pending reading new goto
              (record mg { c_buf_p = g.n_chars; last = ps.1 }) [] ts src' ps.0 g.n_chars g.last n
              (Holds-update g.n_chars ps.1 h) (subst (All IsByte) left' w) more whole
              (λ x. none_left')))
    behind_read src continue_scan g src' left enough (c, cs, next, h, st) =
        let mg : Guts = record g { text_ptr = 0 } in
        let ps = previous_state ts 1 0 g.last in
        let back =
          get_previous_state_lem mg [] ts ((c ∷ cs) ++ (0 ∷ 0 ∷ h.junk)) (0 + length ts)
            (h.block ∙ append_assoc ts (c ∷ cs) (0 ∷ 0 ∷ h.junk)) refl refl in
        rw back (
          rounds [] ts (c ∷ cs) (record mg { c_buf_p = 0 + length ts; last = ps.1 }) src' ps.0
            (0 + length ts)
            (record {
              holds = Holds-update (0 + length ts) ps.1 h;
              place = refl;
              last = g.last;
              seen = refl;
              is_open = o 0 g.last;
              left = left ∙ ap (λ l. ts ++ l) next ∙ sym (append_assoc ts (c ∷ cs) (pending src'));
              ended = λ x. absurd (st x);
            })
            (omega (arith, ap length next, length-append cs (pending src'))))

    -- The end of what was read.
    lex_end :
        (g : Guts) (src : Source)
        → (h : Holds g front (ts ++ [])) → all ≡ (ts ++ []) ++ pending src
        → (g.status ≡ eof_pending → pending src ≡ [])
        → length all + 1 < 2 ^ 30
        → 2 * length (pending src) + 1 < suc fuel
        → (d : ℕ) (t : List ℕ) → [] ++ (0 ∷ 0 ∷ h.junk) ≡ 0 ∷ d ∷ t
        → Lexes pending all
            (ending read junk (lex read junk fuel) (length ts) (marked g front ts d t) src)
    lex_end g src h left ended small enough d t e =
        let mg = marked g front ts d t in
        let mh : Holds mg front ts =
          subst (Holds mg front) (append-nil ts) (marked-Holds g front ts [] d t h e) in
        let outside : leb mg.c_buf_p mg.n_chars ≡ false = ground (arith, mh.chars) in
        let left' : all ≡ ts ++ pending src = left ∙ ap (λ l. l ++ pending src) (append-nil ts) in
        let short : length ts + 1 < 2 ^ 30 =
          omega (arith, ap length left', length-append ts (pending src)) in
        let ended' : mg.status ≡ eof_pending → pending src ≡ [] =
          λ x. ended (started-eof g.status x) in
        let (what, g', src', f, facts) =
          next_buffer_lem read junk pending reading new mg front ts src mh refl refl
            (marked-ne-fresh g front ts d t) ended' short in
        rw (outside, f, ◌>>=◌) (behind_read src what g' src' left' enough facts)

    -- The loop has read up to a NUL behind the text `ts`, or up to the end.
    pub lex_marked :
        (behind : List ℕ) (g : Guts) (src : Source) (s p : ℕ)
        → (behind ≡ []) ⊎ ((more : List ℕ) × (behind ≡ 0 ∷ more))
        → Holds g front (ts ++ behind)
        → pick (s, p) g.last ≡ (3, suc (length front + length ts))
        → all ≡ (ts ++ behind) ++ pending src
        → (g.status ≡ eof_pending → pending src ≡ [])
        → length all + 1 < 2 ^ 30
        → length behind + 2 * length (pending src) + 1 < suc fuel
        → Lexes pending all (act read junk (lex read junk fuel) (length front) s p g src)
    lex_marked [] g src s p e h found left ended small enough =
        rw (act_end read junk (lex read junk fuel) g front ts [] src s p 0 h.junk h refl found)
          (lex_end g src h left ended small (omega arith) 0 h.junk refl)
    lex_marked (suc x ∷ more) g src s p (inl e) h found left ended small enough = cc
    lex_marked (suc x ∷ more) g src s p (inr (m, e)) h found left ended small enough = cc
    lex_marked (zero ∷ more) g src s p e h found left ended small enough =
        let (d, t, first) = first_of more (0 ∷ h.junk) 0 in
        let f = ap (λ l. 0 ∷ l) first in
        rw (act_end read junk (lex read junk fuel) g front ts (0 ∷ more) src s p d t h f found) (
          lex_nul read junk pending reading new fuel all front ts more g src rounds h left
            (o (length front) g.last) ended w (omega arith) d t f)
