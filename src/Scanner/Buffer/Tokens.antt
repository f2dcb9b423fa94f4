-- ===== src/Scanner/Buffer/Tokens.antt =====
-- The tokens of what `read` gives, however it cuts the characters.
use projet_prog.Common.{
  ℕ, zero, suc, ◌+◌, ◌*◌, ◌^◌, ◌≤◌, ◌<◌, ◌≡◌, refl, sym, ap, ◌∙◌, subst, Option, some, List, [],
  ◌∷◌, All, length, length-append, arith,
}
use projet_prog.Common.Words.{IsByte}
use projet_prog.Scanner.{Match, token_of, match_token, tokens}
use projet_prog.Scanner.Rules.{first_token, tokenize}
use projet_prog.Scanner.Spelling.{length-first_token}
use projet_prog.Scanner.Matches.{match_token-first_token}
use projet_prog.Scanner.Refines.{tokens-tokenize, tokenize-spell_all, rest_bytes}
use projet_prog.Scanner.Buffer.State.{
  Guts, fresh, restore, previous_state, text_of, matching, create_buffer,
}
use projet_prog.Scanner.Buffer.{lex, next_action, lex_all, read_tokens}
use projet_prog.Scanner.Buffer.Block.{◌>>=◌, poke, two_first}
use projet_prog.Scanner.Buffer.Runs.{start-IsOpen}
use projet_prog.Scanner.Buffer.Acts.{Ready, Lexes}
use projet_prog.Scanner.Buffer.Reads.{IsRead}
use projet_prog.Scanner.Buffer.Refilled.{restart_lem, restarted}
use projet_prog.Scanner.Buffer.Lexing.{lex_lem}

token_of_text :
    (m : Match) (text : List ℕ)
    → text ≡ m.text
    → token_of (record { state = m.state; text = text; rest = [] }) ≡ token_of m
unfolding token_of
token_of_text m text e = rw e

module _ {Source : Type 0} (read : ℕ → Source → Option (List ℕ × Source)) (junk : ℕ → List ℕ)
    (pending : Source → List ℕ) (reading : IsRead read pending)
    (new : (n : ℕ) → length (junk n) ≡ n) where
  next_action-Lexes :
      (fuel : ℕ) (cs : List ℕ) (g : Guts) (src : Source)
      → Ready pending g src cs
      → All IsByte cs
      → length cs + 1 < 2 ^ 30
      → 2 * length cs + 1 < fuel
      → Lexes pending cs (next_action read junk fuel g src)
  unfolding next_action previous_state
  next_action-Lexes fuel cs g src ready w small enough =
      rw (ready.restores, ◌>>=◌)
        (subst (λ n. Lexes pending cs (lex read junk fuel matching n 1 n ready.restored src))
          (sym ready.place)
          (lex_lem read junk pending reading new fuel cs w small ready.front [] ready.rest
            ready.restored src 1 (length ready.front)
            (record {
              holds = ready.holds;
              place = omega arith;
              last = ready.restored.last;
              seen = refl;
              is_open = start-IsOpen;
              left = ready.left;
              ended = ready.ended;
            })
            (omega (arith, ap length ready.left, length-append ready.rest (pending src)))))

  lex_all-tokenize :
      (n rounds fuel : ℕ) (cs : List ℕ) (g : Guts) (src : Source)
      → Ready pending g src cs
      → All IsByte cs
      → length cs + 1 < 2 ^ 30
      → 2 * length cs + 1 < fuel
      → length cs ≤ n
      → length cs < rounds
      → lex_all read junk rounds fuel g src ≡ tokenize n cs
  unfolding lex_all tokenize
  lex_all-tokenize n zero fuel cs g src ready w small enough fits more = absurd (omega arith)
  lex_all-tokenize n (suc rounds) fuel [] g src ready w small enough fits more =
      let (g', src', e) = next_action-Lexes fuel [] g src ready w small enough in rw (e, ◌>>=◌)
  lex_all-tokenize zero (suc rounds) fuel (c ∷ cs) g src ready w small enough fits more =
      absurd (omega arith)
  lex_all-tokenize (suc n) (suc rounds) fuel (c ∷ cs) g src ready w small enough fits more =
      let m = match_token (c ∷ cs) in
      let (g', src', e, text, ready') =
        next_action-Lexes fuel (c ∷ cs) g src ready w small enough in
      let step = match_token-first_token c cs w in
      let left : m.rest ≡ (first_token c cs).1 = ap (λ x. x.1) step in
      let short = length-first_token c cs in
      let (ts, found, _) = tokenize-spell_all n (first_token c cs).1 (omega arith) in
      let rest =
        lex_all-tokenize n rounds fuel (first_token c cs).1 g' src'
          (subst (Ready pending g' src') left ready') (rest_bytes c cs w) (omega arith)
          (omega arith) (omega arith) (omega arith) in
      let act : token_of (record { state = m.state; text = text_of g'; rest = [] })
          ≡ some (first_token c cs).0 =
        token_of_text m (text_of g') text ∙ ap (λ x. x.0) step in
      let by_rules : tokenize (suc n) (c ∷ cs) ≡ some ((first_token c cs).0 ∷ ts) =
        rw (found, tokenize) in
      rw (e, ◌>>=◌, act, ◌>>=◌, rest, found, ◌>>=◌) (sym by_rules)

  create_buffer-Ready :
      (size : ℕ) (src : Source)
      → 2 ≤ size
      → (g : Guts) × (create_buffer junk size ≡ some g) × Ready pending g src (pending src)
  unfolding create_buffer restore poke
  create_buffer-Ready size src h =
      let (x, y, r, e) = two_first (junk (size + 2)) (omega (arith, new (size + 2))) in
      let g : Guts = record {
        ch_buf = junk (size + 2);
        buf_size = size;
        buf_chars = 0;
        status = fresh;
        n_chars = 0;
        hold_char = 0;
        text_ptr = 0;
        c_buf_p = 0;
        last = (0, 0);
      } in
      (
        restarted g r,
        restart_lem g x y r e,
        record {
          restored = restarted g r;
          front = [];
          rest = [];
          restores = refl;
          holds = record {
            junk = r;
            block = refl;
            chars = refl;
            size = omega (arith, ap length e, new (size + 2));
            room = h;
            counted = λ _. refl;
          };
          place = refl;
          left = refl;
          ended = λ x. cc;
        },
      )

  -- However `read` cuts the characters, one byte each and fewer than 2 ^ 30 - 1 of them, the scanner
  -- returns the tokens of all of them at once, with its one buffer that is filled again and grows, and
  -- it accesses nothing outside the block. Assumed of `read`: it gives at most the characters asked
  -- for, those that come next, and none only at the end. The fuel suffices where it is more than twice
  -- the number of characters and one.
  pub read_tokens-tokens :
      (fuel : ℕ) (src : Source)
      → All IsByte (pending src)
      → length (pending src) + 1 < 2 ^ 30
      → 2 * length (pending src) + 1 < fuel
      → read_tokens read junk fuel src ≡ tokens (pending src)
  unfolding read_tokens
  read_tokens-tokens fuel src w small enough =
      let (g, e, ready) = create_buffer-Ready 16384 src (omega arith) in
      rw (e, ◌>>=◌)
        (lex_all-tokenize (length (pending src)) fuel fuel (pending src) g src ready w small enough
            (omega arith) (omega arith)
          ∙ sym (tokens-tokenize (pending src) w))
