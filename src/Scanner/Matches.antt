-- ===== src/Scanner/Matches.antt =====
-- The match of one token by the tables, against the rules.
use mathlib.Core.List.{append_assoc}
use projet_prog.Common.{
  ℕ, ◌≡◌, refl, ◌∙◌, none, some, Option, List, [], ◌∷◌, ◌++◌, All, Bool-cases, inl, inr, ◌==◌,
}
use projet_prog.Common.Words.{IsByte}
use projet_prog.Scanner.{Token, accept, base, Match, find_action, match_text, match_token, token_of}
use projet_prog.Scanner.Rules.{is_hex, hex_pair, put_front, frame_end, frame_token, first_token}
use projet_prog.Scanner.States.{start_state, frame_state, hex_state, transitions}

-- The match of the packet rule behind `text`, or the match seen last.
unfoldable pub matched : List ℕ → Match → Option (List ℕ × List ℕ) → Match
matched text last none = last
matched text last (some (t, rest)) = record { state = 12; text = text ++ t; rest = rest }

-- Behind "#".
match_hash :
    (cs text : List ℕ) (last : Match)
    → All IsByte cs
    → match_text cs 10 text last ≡ matched text last (hex_pair cs)
unfolding match_text find_action accept base hex_pair matched hex_state
match_hash [] text last w = refl
match_hash (a ∷ []) text last (p, w) = elim (Bool-cases (is_hex a)) [
  | inl q ↦ rw ((transitions a p).from_hash, q)
  | inr q ↦ rw ((transitions a p).from_hash, q)
]
match_hash (a ∷ b ∷ cs) text last (p, (p', w)) = elim (Bool-cases (is_hex a)) [
  | inr q ↦ rw ((transitions a p).from_hash, q)
  | inl q ↦ elim (Bool-cases (is_hex b)) [
    | inl r ↦ rw ((transitions a p).from_hash, q, (transitions b p').from_hex, r, append_assoc)
    | inr r ↦ rw ((transitions a p).from_hash, q, (transitions b p').from_hex, r)
  ]
]

matched-put_front :
    (c : ℕ) (text : List ℕ) (last : Match) (o : Option (List ℕ × List ℕ))
    → matched (text ++ (c ∷ [])) last o ≡ matched text last (put_front c o)
unfolding matched
matched-put_front c text last none = refl
matched-put_front c text last (some (t, rest)) = rw append_assoc

-- Inside a frame.
match_frame :
    (cs text : List ℕ) (last : Match)
    → All IsByte cs
    → match_text cs 9 text last ≡ matched text last (frame_end cs)
unfolding match_text find_action accept base frame_end frame_state
match_frame [] text last w = unfold matched in refl
match_frame (c ∷ cs) text last (p, w) = elim (Bool-cases (c == b'#')) [
  | inl q ↦
      rw ((transitions c p).from_frame, q)
        (match_hash cs (text ++ (c ∷ [])) last w ∙ matched-put_front c text last (hex_pair cs))
  | inr q ↦ elim (Bool-cases (c == b'$')) [
    | inl r ↦ unfold matched in rw ((transitions c p).from_frame, q, r)
    | inr r ↦
        rw ((transitions c p).from_frame, q, r)
          (match_frame cs (text ++ (c ∷ [])) last w ∙ matched-put_front c text last (frame_end cs))
  ]
]

-- Behind "$", which is a match of its own.
match_dollar :
    (cs text : List ℕ) (last : Match)
    → All IsByte cs
    → match_text cs 6 text last
      ≡ matched text (record { state = 6; text = text; rest = cs }) (frame_end cs)
unfolding match_text find_action accept base frame_end frame_state
match_dollar [] text last w = unfold matched in refl
match_dollar (c ∷ cs) text last (p, w) =
    let seen : Match = record { state = 6; text = text; rest = c ∷ cs } in
    elim (Bool-cases (c == b'#')) [
      | inl q ↦
          rw ((transitions c p).from_dollar, q)
            (match_hash cs (text ++ (c ∷ [])) seen w ∙ matched-put_front c text seen (hex_pair cs))
      | inr q ↦ elim (Bool-cases (c == b'$')) [
        | inl r ↦ unfold matched in rw ((transitions c p).from_dollar, q, r)
        | inr r ↦
            rw ((transitions c p).from_dollar, q, r)
              (match_frame cs (text ++ (c ∷ [])) seen w
                ∙ matched-put_front c text seen (frame_end cs))
      ]
    ]

-- The action of a match with the characters behind it.
abbrev pub step_of : Match → Option Token × List ℕ
step_of m = (token_of m, m.rest)

dollar_step :
    (c : ℕ) (cs : List ℕ) (o : Option (List ℕ × List ℕ))
    → step_of (matched (c ∷ []) (record { state = 6; text = c ∷ []; rest = cs }) o)
      ≡ (some (frame_token c cs o).0, (frame_token c cs o).1)
unfolding matched token_of accept frame_token
dollar_step c cs none = refl
dollar_step c cs (some (text, rest)) = refl

-- One token by the tables is that of the rules.
pub match_token-first_token :
    (c : ℕ) (cs : List ℕ)
    → All IsByte (c ∷ cs)
    → step_of (match_token (c ∷ cs)) ≡ (some (first_token c cs).0, (first_token c cs).1)
unfolding match_token match_text find_action accept base start_state first_token token_of
match_token-first_token c cs (p, w) = elim (Bool-cases (c == b'+')) [
  | inl q ↦ rw ((transitions c p).from_start, q)
  | inr q ↦ elim (Bool-cases (c == b'-')) [
    | inl r ↦ rw ((transitions c p).from_start, q, r)
    | inr r ↦ elim (Bool-cases (c == b'$')) [
      | inl s ↦
          rw ((transitions c p).from_start, q, r, s, match_dollar cs (c ∷ []) _ w)
            (dollar_step c cs (frame_end cs))
      | inr s ↦ elim (Bool-cases (c == 10)) [
        | inl t ↦ rw ((transitions c p).from_start, q, r, s, t)
        | inr t ↦ rw ((transitions c p).from_start, q, r, s, t)
      ]
    ]
  ]
]
