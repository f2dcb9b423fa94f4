-- ===== src/Scanner/Buffer/Lexing.antt =====
-- yylex up to its next action, on a buffer that is filled again, against the match of a token.
use mathlib.Core.List.{append_assoc}
use projet_prog.Common.{
  ℕ, zero, suc, ◌+◌, ◌*◌, ◌^◌, ◌<◌, ◌≡◌, sym, ap, ◌∙◌, subst, Option, List, ◌∷◌, ◌++◌, All,
  All-split, length, length-append, drop, inl, inr, arith,
}
use projet_prog.Common.Words.{IsByte}
use projet_prog.Scanner.Buffer.State.{Guts, pick, previous_state}
use projet_prog.Scanner.Buffer.{act, lex}
use projet_prog.Scanner.Buffer.Block.{◌>>=◌}
use projet_prog.Scanner.Buffer.Runs.{IsOpen, Ends, match_block_lem}
use projet_prog.Scanner.Buffer.Held.{Holds}
use projet_prog.Scanner.Buffer.Acts.{Lexes}
use projet_prog.Scanner.Buffer.Reads.{IsRead}
use projet_prog.Scanner.Buffer.Scans.{
  previous_state-append, Scans, Holds-update, block_behind, same_state, lex-Stops, Rounds,
}
use projet_prog.Scanner.Buffer.Ends.{lex_marked}

module _ {Source : Type 0} (read : ℕ → Source → Option (List ℕ × Source)) (junk : ℕ → List ℕ)
    (pending : Source → List ℕ) (reading : IsRead read pending)
    (new : (n : ℕ) → length (junk n) ≡ n) where
  lex-Ends :
      (fuel : ℕ) (all front xs ys : List ℕ) (g : Guts) (src : Source) (s p : ℕ)
      (r : (ℕ × ℕ) × (ℕ × ℕ))
      → Rounds read junk pending reading new fuel all
      → Scans pending all front xs ys g src s p
      → All IsByte all
      → length all + 1 < 2 ^ 30
      → length ys + 2 * length (pending src) + 1 < suc fuel
      → Ends ys s p g.last r
      → Lexes pending all (
          act read junk
            (lex read junk fuel)
            (length front)
            r.0.0
            r.0.1
            (record g { last = r.1 })
            src)
  lex-Ends fuel all front xs ys g src s p r rounds sc w small enough ends =
      let ts = xs ++ ends.before in
      let parts : xs ++ ys ≡ ts ++ ends.behind =
        ap (λ l. xs ++ l) ends.parts ∙ sym (append_assoc xs ends.before ends.behind) in
      let h : Holds (record g { last = r.1 }) front (ts ++ ends.behind) =
        subst (Holds (record g { last = r.1 }) front) parts (Holds-update g.c_buf_p r.1 sc.holds) in
      let found : pick r.0 r.1 ≡ (3, suc (length front + length ts)) =
        ends.found ∙ ap (λ n. (3, suc n)) (omega (arith, sc.place, length-append xs ends.before)) in
      let left : all ≡ (ts ++ ends.behind) ++ pending src =
        sc.left ∙ ap (λ l. l ++ pending src) parts in
      let o : (bp : ℕ) (last : ℕ × ℕ) → IsOpen (previous_state ts 1 bp last).0 = λ bp last.
        subst IsOpen
          (same_state ends.before s p (length front + length xs) g.last g.last
            ∙ ap (λ q. (previous_state ends.before q.0 (length front + length xs) q.1).0)
                (sym sc.seen)
            ∙ ap (λ q. q.0) (sym (previous_state-append xs ends.before 1 (length front) sc.last))
            ∙ same_state ts 1 (length front) bp sc.last last)
          ends.is_open in
      lex_marked read junk pending reading new fuel all front ts rounds w o ends.behind
        (record g { last = r.1 }) src r.0.0 r.0.1 ends.at_end h found left sc.ended small
        (omega (arith, ap length ends.parts, length-append ends.before ends.behind))

  pub lex_lem :
      (fuel : ℕ) (all : List ℕ)
      → All IsByte all
      → length all + 1 < 2 ^ 30
      → Rounds read junk pending reading new fuel all
  unfolding lex
  lex_lem zero all w small front xs ys g src s p sc enough = absurd (omega arith)
  lex_lem (suc fuel) all w small front xs ys g src s p sc enough =
      let here : drop p g.ch_buf ≡ ys ++ (0 ∷ 0 ∷ sc.holds.junk) =
        ap (drop p) sc.holds.block ∙ block_behind front xs ys _ p sc.place in
      let unread = (All-split IsByte (xs ++ ys) (pending src) (subst (All IsByte) sc.left w)).0 in
      let (r, e, what) =
        match_block_lem ys sc.holds.junk s p g.last sc.is_open (All-split IsByte xs ys unread).1 in
      rw (here, e, ◌>>=◌)
        (elim what [
          | inl stops ↦
              lex-Stops read junk pending reading new all front xs ys (lex read junk fuel) g src s p
                r sc w stops
          | inr ends ↦
              lex-Ends fuel all front xs ys g src s p r (lex_lem fuel all w small) sc w small enough
                ends
        ])
