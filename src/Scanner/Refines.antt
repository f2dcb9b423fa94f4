-- ===== src/Scanner/Refines.antt =====
-- The tables of scanner.c do what the rules of scanner.l say.
use projet_prog.Common.{
  ℕ, zero, suc, ◌≤◌, ◌≡◌, refl, sym, ap, ◌∙◌, subst, some, List, [], ◌∷◌, ◌++◌, length, All, arith,
}
use projet_prog.Common.Words.{IsByte}
use projet_prog.Scanner.{Token, match_token, token_of, scan_tokens, tokens}
use projet_prog.Scanner.Rules.{first_token, tokenize}
use projet_prog.Scanner.Matches.{match_token-first_token}
use projet_prog.Scanner.Spelling.{spell, spell_all, spell-first_token, length-first_token}

All-behind : (xs ys : List ℕ) → All IsByte (xs ++ ys) → All IsByte ys
All-behind [] ys w = w
All-behind (x ∷ xs) ys (p, w) = All-behind xs ys w

pub rest_bytes : (c : ℕ) (cs : List ℕ) → All IsByte (c ∷ cs) → All IsByte (first_token c cs).1
rest_bytes c cs w =
    All-behind (spell (first_token c cs).0) (first_token c cs).1
      (subst (All IsByte) (sym (spell-first_token c cs)) w)

scan_tokens-tokenize :
    (fuel : ℕ) (cs : List ℕ) → All IsByte cs → scan_tokens fuel cs ≡ tokenize fuel cs
unfolding scan_tokens tokenize
scan_tokens-tokenize fuel [] w = refl
scan_tokens-tokenize zero (c ∷ cs) w = refl
scan_tokens-tokenize (suc fuel) (c ∷ cs) w =
    let e = match_token-first_token c cs w in
    let act : token_of (match_token (c ∷ cs)) ≡ some (first_token c cs).0 = ap (λ x. x.0) e in
    let left : (match_token (c ∷ cs)).rest ≡ (first_token c cs).1 = ap (λ x. x.1) e in
    rw (
      act,
      left,
      scan_tokens-tokenize fuel (first_token c cs).1 (rest_bytes c cs w),
      scan_tokens,
      tokenize,
    )

-- With a round for every character the rules take the whole text.
pub tokenize-spell_all :
    (fuel : ℕ) (cs : List ℕ)
    → length cs ≤ fuel
    → (ts : List Token) × (tokenize fuel cs ≡ some ts) × (spell_all ts ≡ cs)
unfolding tokenize spell_all
tokenize-spell_all fuel [] h = ([], refl, refl)
tokenize-spell_all zero (c ∷ cs) h = absurd (omega arith)
tokenize-spell_all (suc fuel) (c ∷ cs) h =
    let (ts, e, p) =
      tokenize-spell_all fuel (first_token c cs).1 (omega (arith, length-first_token c cs)) in
    ((first_token c cs).0 ∷ ts, rw (e, tokenize), rw p (spell-first_token c cs))

-- More rounds change nothing.
pub tokenize_fuel :
    (fuel fuel' : ℕ) (cs : List ℕ)
    → length cs ≤ fuel
    → length cs ≤ fuel'
    → tokenize fuel cs ≡ tokenize fuel' cs
unfolding tokenize
tokenize_fuel fuel fuel' [] h k = refl
tokenize_fuel zero fuel' (c ∷ cs) h k = absurd (omega arith)
tokenize_fuel (suc fuel) zero (c ∷ cs) h k = absurd (omega arith)
tokenize_fuel (suc fuel) (suc fuel') (c ∷ cs) h k =
    let small = length-first_token c cs in
    rw (
      tokenize_fuel fuel fuel' (first_token c cs).1 (omega (arith, small)) (omega (arith, small)),
      tokenize,
    )

-- On characters of one byte, the scanner in scanner.c returns what the rules of scanner.l say,
-- token by token.
pub tokens-tokenize : (cs : List ℕ) → All IsByte cs → tokens cs ≡ tokenize (length cs) cs
unfolding tokens
tokens-tokenize cs w = scan_tokens-tokenize (length cs) cs w

-- On characters of one byte the scanner always ends, it finds an action for every text, and no
-- character is lost: the texts of its tokens, in order, are what was received.
pub tokens-spell_all :
    (cs : List ℕ) → All IsByte cs → (ts : List Token) × (tokens cs ≡ some ts) × (spell_all ts ≡ cs)
tokens-spell_all cs w =
    let (ts, e, p) = tokenize-spell_all (length cs) cs (omega arith) in
    (ts, tokens-tokenize cs w ∙ e, p)

tokenize_first :
    (c : ℕ) (cs rest : List ℕ) (t : Token) (fuel : ℕ) (ts : List Token)
    → first_token c cs ≡ (t, rest)
    → tokenize fuel rest ≡ some ts
    → tokenize (suc fuel) (c ∷ cs) ≡ some (t ∷ ts)
unfolding tokenize
tokenize_first c cs rest t fuel ts p e =
    let act : (first_token c cs).0 ≡ t = ap (λ x. x.0) p in
    let left : (first_token c cs).1 ≡ rest = ap (λ x. x.1) p in rw (left, e, act, tokenize)

-- The first token, then those of what stands behind it.
pub tokens_first :
    (c : ℕ) (cs rest : List ℕ) (t : Token) (ts : List Token)
    → All IsByte (c ∷ cs)
    → All IsByte rest
    → first_token c cs ≡ (t, rest)
    → tokens rest ≡ some ts
    → tokens (c ∷ cs) ≡ some (t ∷ ts)
tokens_first c cs rest t ts w v p e =
    let left : (first_token c cs).1 ≡ rest = ap (λ x. x.1) p in
    let short : length rest ≤ length cs =
      subst (λ r. length r ≤ length cs) left (length-first_token c cs) in
    tokens-tokenize (c ∷ cs) w
    ∙ tokenize_first c cs rest t (length cs) ts p (
        tokenize_fuel (length cs) (length rest) rest short (omega arith)
        ∙ sym (tokens-tokenize rest v)
        ∙ e)
