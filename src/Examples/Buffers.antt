-- ===== src/Examples/Buffers.antt =====
-- The theorem on the buffer of the scanner, at a source that gives its characters in four reads.
use mathlib.Core.List.{append_assoc}
use projet_prog.Common.{
  ℕ, zero, suc, ◌≤◌, ◌<◌, ◌≡◌, refl, sym, ap, ◌∙◌, Option, some, List, [], ◌∷◌, ◌++◌, length, take,
  drop, take-append-drop, length-take, ltb, ltb→lt, ltb→ge, if◌then◌else◌, Bool-cases, inl, inr,
  arith,
}
use projet_prog.Scanner.{tokens}
use projet_prog.Scanner.Buffer.{read_tokens}
use projet_prog.Scanner.Buffer.Reads.{IsRead}
use projet_prog.Scanner.Buffer.Tokens.{read_tokens-tokens}

-- A read gives what came in one piece, or as much of it as is asked for.
unfoldable read_chunks : ℕ → List (List ℕ) → Option (List ℕ × List (List ℕ))
read_chunks n [] = some ([], [])
read_chunks n ([] ∷ cs) = read_chunks n cs
read_chunks n ((x ∷ c) ∷ cs) =
    if ltb n (length (x ∷ c)) then some (take n (x ∷ c), drop n (x ∷ c) ∷ cs) else some (x ∷ c, cs)

abbrev concat : List (List ℕ) → List ℕ
concat [] = []
concat (c ∷ cs) = c ++ concat cs

abbrev Given : ℕ → List (List ℕ) → Type 0
Given n src =
    (cs : List ℕ) × (src' : List (List ℕ)) × (read_chunks n src ≡ some (cs, src'))
    × (length cs ≤ n)
    × (concat src ≡ cs ++ concat src')
    × (cs ≡ [] → concat src ≡ [])

read_chunks_gives : (n : ℕ) (src : List (List ℕ)) → 0 < n → Given n src
unfolding read_chunks
read_chunks_gives n [] h = ([], [], refl, omega arith, refl, λ e. refl)
read_chunks_gives n ([] ∷ cs) h = read_chunks_gives n cs h
read_chunks_gives n ((x ∷ c) ∷ cs) h = elim (Bool-cases (ltb n (length (x ∷ c)))) [
  | inl e ↦
      let short : length (take n (x ∷ c)) ≡ n =
        length-take n (x ∷ c) (omega (arith, ltb→lt _ _ e)) in
      (
        take n (x ∷ c),
        drop n (x ∷ c) ∷ cs,
        rw e,
        omega (arith, short),
        ap (λ l. l ++ concat cs) (sym (take-append-drop n (x ∷ c)))
            ∙ append_assoc (take n (x ∷ c)) (drop n (x ∷ c)) (concat cs),
        λ z. absurd (omega (arith, short, ap length z)),
      )
  | inr e ↦ (x ∷ c, cs, rw e, ltb→ge _ _ e, refl, λ z. cc)
]

read_chunks-IsRead : IsRead read_chunks concat
read_chunks-IsRead = record { reads = read_chunks_gives }

-- What malloc leaves.
abbrev junk : ℕ → List ℕ
junk zero = []
junk (suc n) = 85 ∷ junk n

length-junk : (n : ℕ) → length (junk n) ≡ n
length-junk zero = refl
length-junk (suc n) = ap suc (length-junk n)

-- A packet in two pieces, a NUL that ends a piece, an acknowledgement, and a "$" at the end.
abbrev pieces : List (List ℕ)
pieces = (b'$' ∷ b'O' ∷ []) ∷ (b'K' ∷ b'#' ∷ b'9' ∷ b'a' ∷ 0 ∷ []) ∷ [] ∷ (b'+' ∷ b'$' ∷ []) ∷ []

read_tokens-tokens_example : read_tokens read_chunks junk 32 pieces ≡ tokens (concat pieces)
read_tokens-tokens_example =
    read_tokens-tokens read_chunks junk concat read_chunks-IsRead length-junk 32 pieces
      (omega arith) (omega arith) (omega arith)
