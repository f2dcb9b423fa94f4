-- ===== src/Scanner/Buffer/Nuls.antt =====
-- A NUL in the text, which the scanner takes for the end of the buffer first.
use mathlib.Core.List.{append_assoc}
use projet_prog.Common.{
  ℕ, zero, suc, ◌+◌, ◌*◌, ◌<◌, ◌≡◌, ◌≢◌, refl, sym, ap, ◌∙◌, subst, true, Option, List, [], ◌∷◌,
  ◌++◌, All, All-split, length, length-append, leb, ◌==◌, ==→eq, ==→ne, Bool-cases, inl, inr, arith,
}
use projet_prog.Common.Words.{IsByte}
use projet_prog.Scanner.{next_state}
use projet_prog.Scanner.Furthest.{furthest}
use projet_prog.Scanner.Buffer.State.{
  Guts, eof_pending, matching, acting, pick, previous_state, try_nul_trans,
}
use projet_prog.Scanner.Buffer.{Goto, act, lex, at_nul}
use projet_prog.Scanner.Buffer.Block.{snoc_append, length-snoc}
use projet_prog.Scanner.Buffer.Runs.{IsOpen}
use projet_prog.Scanner.Buffer.Held.{Holds, get_previous_state_lem}
use projet_prog.Scanner.Buffer.Acts.{Lexes}
use projet_prog.Scanner.Buffer.Reads.{IsRead}
use projet_prog.Scanner.Buffer.Ended.{marked, marked-Holds, started-eof, ending}
use projet_prog.Scanner.Buffer.Scans.{
  Holds-update, append_ne, seen_furthest, Entry-nul, nul_jams, nul_seen, is_nonzero, found_in,
  Rounds,
}

module _ {Source : Type 0} (read : ℕ → Source → Option (List ℕ × Source)) (junk : ℕ → List ℕ)
    (pending : Source → List ℕ) (reading : IsRead read pending)
    (new : (n : ℕ) → length (junk n) ≡ n) where
  pub lex_acting :
      (fuel : ℕ)
      → 0 < fuel
      → (goto : Goto Source) × ((bp s p : ℕ) (g : Guts) (src : Source)
          → lex read junk fuel acting bp s p g src ≡ act read junk goto bp s p g src)
  unfolding lex
  lex_acting zero h = absurd (omega arith)
  lex_acting (suc fuel) h = (lex read junk fuel, λ bp s p g src. refl)

  module _ (fuel : ℕ) (all front ts more : List ℕ) (g : Guts) (src : Source)
      (rounds : Rounds read junk pending reading new fuel all)
      (h : Holds g front (ts ++ (0 ∷ more))) (left : all ≡ (ts ++ (0 ∷ more)) ++ pending src)
      (o : IsOpen (previous_state ts 1 (length front) g.last).0)
      (ended : g.status ≡ eof_pending → pending src ≡ []) (w : All IsByte all)
      (enough : length more + 2 * length (pending src) + 1 < fuel) where
    abbrev behind_text : ℕ × (ℕ × ℕ)
    behind_text = previous_state ts 1 (length front) g.last

    abbrev at_text : ℕ × ℕ
    at_text = (behind_text.0, length front + length ts)

    -- The scanner jams at the NUL, so the text is matched before it.
    nul_acts :
        next_state behind_text.0 1 ≡ 13
        → Lexes pending all (
            lex read junk fuel acting
              (length front)
              at_text.0
              at_text.1
              (record g { c_buf_p = at_text.1; last = pick at_text behind_text.1 })
              src)
    nul_acts j =
        let (goto, e) = lex_acting fuel (omega arith) in
        let v = subst (All IsByte) left w in
        let (u, u') = All-split IsByte (ts ++ (0 ∷ more)) (pending src) v in
        let inside : furthest (ts ++ (0 ∷ more)) 1 (length front) g.last
            ≡ pick at_text (pick at_text behind_text.1) =
          seen_furthest ts (0 ∷ more) (length front) g.last refl refl
          ∙ nul_jams more at_text.0 at_text.1 behind_text.1 j
              (All-split IsByte ts (0 ∷ more) u).1.1 in
        let rest =
          All-split IsByte ts ((0 ∷ more) ++ pending src)
            (subst (All IsByte) (append_assoc ts (0 ∷ more) (pending src)) v) in
        let whole : furthest ((ts ++ (0 ∷ more)) ++ pending src) 1 (length front) g.last
            ≡ pick at_text (pick at_text behind_text.1) =
          ap (λ l. furthest l 1 (length front) g.last) (append_assoc ts (0 ∷ more) (pending src))
          ∙ seen_furthest ts ((0 ∷ more) ++ pending src) (length front) g.last refl refl
          ∙ nul_jams (more ++ pending src) at_text.0 at_text.1 behind_text.1 j rest.1.1 in
        rw (e, left)
          (found_in read junk pending reading new goto
            (record g { c_buf_p = at_text.1; last = pick at_text behind_text.1 }) front
            (ts ++ (0 ∷ more)) src at_text.0 at_text.1 g.last (append_ne ts (0 ∷ more) (λ x. cc))
            (Holds-update at_text.1 (pick at_text behind_text.1) h) v whole inside ended)

    -- The scanner goes on behind the NUL.
    nul_goes_on :
        next_state behind_text.0 1 ≢ 13
        → Lexes pending all (
            lex read junk fuel matching
              (length front)
              (next_state behind_text.0 1)
              (suc at_text.1)
              (record g { c_buf_p = suc at_text.1; last = pick at_text behind_text.1 })
              src)
    nul_goes_on j =
        let e = Entry-nul behind_text.0 o.is_state in
        rounds front (ts ++ (0 ∷ [])) more
          (record g { c_buf_p = suc at_text.1; last = pick at_text behind_text.1 }) src
          (next_state behind_text.0 1) (suc at_text.1)
          (record {
            holds =
                subst (Holds _ front) (sym (snoc_append ts more 0))
                  (Holds-update (suc at_text.1) (pick at_text behind_text.1) h);
            place = omega (arith, length-snoc ts 0);
            last = g.last;
            seen = nul_seen ts (length front) g.last;
            is_open = record {
              is_state = e.is_state;
              ne_end = e.ne_end;
              is_pos = e.is_pos;
              ne_jam = j;
            };
            left = left ∙ ap (λ l. l ++ pending src) (sym (snoc_append ts more 0));
            ended = ended;
          })
          enough

  -- A NUL in the text.
  pub lex_nul :
      (fuel : ℕ) (all front ts more : List ℕ) (g : Guts) (src : Source)
      → Rounds read junk pending reading new fuel all
      → (h : Holds g front (ts ++ (0 ∷ more))) → all ≡ (ts ++ (0 ∷ more)) ++ pending src
      → IsOpen (previous_state ts 1 (length front) g.last).0
      → (g.status ≡ eof_pending → pending src ≡ [])
      → All IsByte all
      → length more + 2 * length (pending src) + 1 < fuel
      → (d : ℕ) (t : List ℕ) → (0 ∷ more) ++ (0 ∷ 0 ∷ h.junk) ≡ 0 ∷ d ∷ t
      → Lexes pending all
          (ending read junk (lex read junk fuel) (length ts) (marked g front ts d t) src)
  unfolding at_nul try_nul_trans
  lex_nul fuel all front ts more g src rounds h left o ended w enough d t e =
      let mg = marked g front ts d t in
      let mh = marked-Holds g front ts (0 ∷ more) d t h e in
      let s = (previous_state ts 1 (length front) g.last).0 in
      let inside : leb mg.c_buf_p mg.n_chars ≡ true =
        ground (arith, h.chars, length-append ts (0 ∷ more)) in
      let back =
        get_previous_state_lem mg front ts (0 ∷ (more ++ (0 ∷ 0 ∷ mh.junk)))
          (length front + length ts)
          (mh.block ∙ ap (◌++◌ front) (append_assoc ts (0 ∷ more) (0 ∷ 0 ∷ mh.junk))) refl refl in
      let ended' : mg.status ≡ eof_pending → pending src ≡ [] =
        λ x. ended (started-eof g.status x) in
      rw (inside, back)
        (elim (Bool-cases (next_state s 1 == 13)) [
          | inl j ↦ rw j (
              nul_acts fuel all front ts more mg src rounds mh left o ended' w enough (==→eq _ _ j))
          | inr j ↦
              rw (j, is_nonzero _ (Entry-nul s o.is_state).is_pos)
                (nul_goes_on fuel all front ts more mg src rounds mh left o ended' w enough
                  (==→ne _ _ j))
        ])
