-- ===== src/Scanner/Buffer/Acts.antt =====
-- The action of a match that lies in the buffer.
use mathlib.Core.List.{append_assoc}
use projet_prog.Common.{
  ℕ, ◌+◌, ◌-◌, ◌≤◌, ◌<◌, ◌≡◌, refl, sym, ap, ◌∙◌, subst, false, Option, none, some, List, [], ◌∷◌,
  ◌++◌, All, length, length-append, take, drop, take-append-drop, length-take, length-le-drop,
  take-append_le, drop-append_le, ◌==◌, arith,
}
use projet_prog.Common.Words.{IsByte}
use projet_prog.Scanner.{Token, accept, Match, token_of, match_token}
use projet_prog.Scanner.Rules.{first_token}
use projet_prog.Scanner.Spelling.{length-first_token}
use projet_prog.Scanner.Matches.{match_token-first_token}
use projet_prog.Scanner.Furthest.{furthest, furthest_start-le, spot, match_token-furthest}
use projet_prog.Scanner.Buffer.State.{Guts, eof_pending, pick, text_of, restore}
use projet_prog.Scanner.Buffer.{act, Goto, Lexed}
use projet_prog.Scanner.Buffer.Block.{◌>>=◌}
use projet_prog.Scanner.Buffer.Held.{Holds, before_action_lem, restore_lem, take-drop-append}

token_not_end : (m : Match) (t : Token) → token_of m ≡ some t → (accept m.state == 6) ≡ false
unfolding token_of
token_not_end m t e = ground arith

-- A match in the buffer, where more may come: its state, and the text in the buffer.
record Found (m : Match) (buffered more : List ℕ) (bp : ℕ) (at : ℕ × ℕ) : Type 0 where
  is_action : (accept at.0 == 6) ≡ false
  text : List ℕ
  rest : List ℕ
  parts : buffered ≡ text ++ rest
  place : at.1 ≡ bp + length text
  is_match : m ≡ record { state = at.0; text = text; rest = rest ++ more }

found_lem :
    (c : ℕ) (cs more : List ℕ) (bp : ℕ) (last at : ℕ × ℕ)
    → All IsByte (c ∷ (cs ++ more))
    → furthest (c ∷ (cs ++ more)) 1 bp last ≡ at
    → furthest (c ∷ cs) 1 bp last ≡ at
    → Found (match_token (c ∷ (cs ++ more))) (c ∷ cs) more bp at
found_lem c cs more bp last at (v, w) e f =
    let all = c ∷ (cs ++ more) in
    let m : match_token all ≡ spot bp all at =
      match_token-furthest c (cs ++ more) bp last (v, w) ∙ ap (spot bp all) e in
    let step = match_token-first_token c (cs ++ more) (v, w) in
    let k : ℕ = at.1 - bp in
    let left : drop k all ≡ (first_token c (cs ++ more)).1 =
      ap (λ m. m.rest) (sym m) ∙ ap (λ x. x.1) step in
    let short : length (drop k all) ≤ length (cs ++ more) =
      rw left (length-first_token c (cs ++ more)) in
    let fits : at.1 ≤ bp + length (c ∷ cs) =
      subst (λ x. x.1 ≤ bp + length (c ∷ cs)) f (furthest_start-le c cs bp last v) in
    let pos : 0 < k = omega (arith, short, length-le-drop k all) in
    let n : length (take k (c ∷ cs)) ≡ k = length-take k (c ∷ cs) (omega arith) in
    record {
      is_action =
          subst (λ m. (accept m.state == 6) ≡ false) m (token_not_end _ _ (ap (λ x. x.0) step));
      text = take k (c ∷ cs);
      rest = drop k (c ∷ cs);
      parts = sym (take-append-drop k (c ∷ cs));
      place = omega (arith, n);
      is_match = m ∙ (λ i. record {
        state = at.0;
        text = take-append_le k (c ∷ cs) more (omega arith) i;
        rest = drop-append_le k (c ∷ cs) more (omega arith) i;
      });
    }

pub first_of : (cs junk : List ℕ) (x : ℕ) → (d : ℕ) × (t : List ℕ) × (cs ++ (x ∷ junk) ≡ d ∷ t)
first_of [] junk x = (x, junk, refl)
first_of (c ∷ cs) junk x = (c, cs ++ (x ∷ junk), refl)

-- The block, cut behind a text.
cut :
    (front cs text rest end t : List ℕ) (d : ℕ)
    → cs ≡ text ++ rest
    → rest ++ end ≡ d ∷ t
    → front ++ (cs ++ end) ≡ (front ++ text) ++ (d ∷ t)
cut front cs text rest end t d e f =
    rw (e, append_assoc, append_assoc) (ap (λ l. front ++ (text ++ l)) f)

module _ {Source : Type 0} (pending : Source → List ℕ) where
  -- Between two actions `cs` is what is still to be read: first from the block, then from the source.
  pub record Ready (g : Guts) (src : Source) (cs : List ℕ) : Type 0 where
    pub restored : Guts
    pub front : List ℕ
    pub rest : List ℕ
    pub restores : restore g.c_buf_p g ≡ some restored
    pub holds : Holds restored front rest
    pub place : g.c_buf_p ≡ length front
    pub left : cs ≡ rest ++ pending src
    pub ended : restored.status ≡ eof_pending → pending src ≡ []

  -- The end of the file where nothing is left, and otherwise the action of the first match, with its
  -- text, and what stands behind it is still to be read.
  abbrev pub Lexes : List ℕ → Lexed Source → Type 0
  Lexes [] o = (g : Guts) × (src : Source) × (o ≡ some (none, g, src))
  Lexes (c ∷ cs) o =
      (g : Guts) × (src : Source) × (o ≡ some (some (match_token (c ∷ cs)).state, g, src))
      × (text_of g ≡ (match_token (c ∷ cs)).text)
      × Ready g src (match_token (c ∷ cs)).rest

  Ready-after :
      (g : Guts) (front cs text rest : List ℕ) (src : Source) (bp p d : ℕ) (t : List ℕ)
      → (h : Holds g front cs) → cs ≡ text ++ rest
      → p ≡ length front + length text
      → rest ++ (0 ∷ 0 ∷ h.junk) ≡ d ∷ t
      → (g.status ≡ eof_pending → pending src ≡ [])
      → Ready
          (record g {
            ch_buf = (front ++ text) ++ (0 ∷ t);
            hold_char = d;
            text_ptr = bp;
            c_buf_p = p;
          })
          src
          (rest ++ pending src)
  Ready-after g front cs text rest src bp p d t h e n f ended = record {
    restored = record g {
      ch_buf = (front ++ text) ++ (d ∷ t);
      hold_char = d;
      text_ptr = bp;
      c_buf_p = p;
    };
    front = front ++ text;
    rest = rest;
    restores =
        restore_lem
          (record g {
            ch_buf = (front ++ text) ++ (0 ∷ t);
            hold_char = d;
            text_ptr = bp;
            c_buf_p = p;
          })
          (front ++ text) d t p refl refl (omega (arith, length-append front text));
    holds = record {
      junk = h.junk;
      block = ap (◌++◌ (front ++ text)) (sym f);
      chars =
          omega (arith, h.chars, ap length e, length-append text rest, length-append front text);
      size = ap length (sym (h.block ∙ cut front cs text rest (0 ∷ 0 ∷ h.junk) t d e f)) ∙ h.size;
      room = h.room;
      counted = h.counted;
    };
    place = omega (arith, length-append front text);
    left = refl;
    ended = ended;
  }

  pub act_found :
      (read : ℕ → Source → Option (List ℕ × Source)) (junk : ℕ → List ℕ) (goto : Goto Source)
      (g : Guts) (front : List ℕ) (c : ℕ) (cs : List ℕ) (src : Source) (s p : ℕ) (last : ℕ × ℕ)
      → Holds g front (c ∷ cs)
      → All IsByte (c ∷ (cs ++ pending src))
      → furthest (c ∷ (cs ++ pending src)) 1 (length front) last ≡ pick (s, p) g.last
      → furthest (c ∷ cs) 1 (length front) last ≡ pick (s, p) g.last
      → (g.status ≡ eof_pending → pending src ≡ [])
      → Lexes (c ∷ (cs ++ pending src)) (act read junk goto (length front) s p g src)
  unfolding act text_of
  act_found read junk goto g front c cs src s p last h w e f ended =
      let found = found_lem c cs (pending src) (length front) last (pick (s, p) g.last) w e f in
      let (d, t, first) = first_of found.rest (0 ∷ h.junk) 0 in
      let at = pick (s, p) g.last in
      let block : g.ch_buf ≡ (front ++ found.text) ++ (d ∷ t) =
        h.block ∙ cut front (c ∷ cs) found.text found.rest (0 ∷ 0 ∷ h.junk) t d found.parts first in
      let before =
        before_action_lem g (front ++ found.text) d t (length front) at.1 block
          (omega (arith, found.place, length-append front found.text)) in
      rw found.is_match (
        record g {
          ch_buf = (front ++ found.text) ++ (0 ∷ t);
          hold_char = d;
          text_ptr = length front;
          c_buf_p = at.1;
        },
        src,
        rw (before, ◌>>=◌, found.is_action),
        ap (λ l. take (at.1 - length front) (drop (length front) l))
              (append_assoc front found.text (0 ∷ t))
            ∙ take-drop-append front found.text (0 ∷ t) (length front) (at.1 - length front) refl
                (omega (arith, found.place)),
        Ready-after g front (c ∷ cs) found.text found.rest src (length front) at.1 d t h found.parts
            found.place first ended,
      )
