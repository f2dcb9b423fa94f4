-- ===== src/Scanner/Furthest.antt =====
-- The match of a token without the exit on a jam: the last accepting state and where it was, from
-- the start of the text to its end.
use projet_prog.Common.{
  ℕ, suc, ◌+◌, ◌-◌, ◌≤◌, ◌<◌, ◌≡◌, ◌≢◌, refl, sym, ap, ◌∙◌, subst, Bool, true, false, not, ◌&&◌,
  ◌||◌, List, [], ◌∷◌, ◌++◌, All, length, take, drop, take-append, drop-append, ltb, ltb→lt, ◌==◌,
  ==→eq, if◌then◌else◌, all_below, all_below_holds, both, Bool-cases, inl, inr, arith,
}
use projet_prog.Common.Words.{IsByte}
use projet_prog.Scanner.{
  accept, base, class, next_state, find_entry, Match, find_action, match_text, match_token,
}
use projet_prog.Scanner.Buffer.State.{pick, previous_state}
use projet_prog.Scanner.Buffer.Block.{snoc_append, length-snoc}

-- The entries of the tables that the loop goes by: class 0 is the end of the buffer.
are_entries : ℕ → ℕ → Bool
are_entries s k =
    (ltb (next_state s (suc k)) 14 && not (next_state s (suc k) == 3 || next_state s (suc k) == 0))
    && ((if base s == 14 then next_state s (suc k) == 13 else true)
        && (not (accept (next_state 1 (suc k)) == 0)))

entries : all_below (λ s. all_below (are_entries s) 7) 14 ≡ true
unfolding all_below are_entries next_state find_entry accept base
entries = refl

classes : all_below (λ c. not (class c == 0) && ltb (class c) 8) 256 ≡ true
unfolding all_below class
classes = refl

pub class_bounds : (c : ℕ) → IsByte c → (k : ℕ) × (class c ≡ suc k) × (k < 7)
class_bounds c w =
    let (p, q) =
      both (not (class c == 0)) (ltb (class c) 8)
        (all_below_holds (λ c. not (class c == 0) && ltb (class c) 8) 256 c classes w) in
    (class c - 1, ground (arith, p), ground (arith, p, q, ltb→lt _ _ q))

entry : (s c : ℕ) → s < 14 → IsByte c → (k : ℕ) × (class c ≡ suc k) × (are_entries s k ≡ true)
entry s c h w =
    let (k, e, b) = class_bounds c w in
    (
      k,
      e,
      all_below_holds (are_entries s) 7 k
          (all_below_holds (λ s. all_below (are_entries s) 7) 14 s entries h) b,
    )

-- Where a character of class `k` leads.
pub record Entry (s k : ℕ) : Type 0 where
  pub is_state : next_state s k < 14
  pub ne_end : next_state s k ≢ 3
  pub is_pos : 0 < next_state s k
  pub jams : base s ≡ 14 → next_state s k ≡ 13
  pub accepts : (accept (next_state 1 k) == 0) ≡ false

Entry-suc : (s k : ℕ) → are_entries s k ≡ true → Entry s (suc k)
unfolding are_entries
Entry-suc s k all =
    let (p, q) = both _ _ all in
    let (p', p'') = both _ _ p in
    let (q', q'') =
      both (if base s == 14 then next_state s (suc k) == 13 else true)
        (not (accept (next_state 1 (suc k)) == 0)) q in
    record {
      is_state = ltb→lt _ _ p';
      ne_end = λ e. ground (arith, p'', e);
      is_pos = ground (arith, p'');
      jams = λ b. ==→eq _ _ (ground (arith, q', b));
      accepts = ground (arith, q'');
    }

pub entry_lem : (s c : ℕ) → s < 14 → IsByte c → Entry s (class c)
entry_lem s c h w = let (k, e, all) = entry s c h w in subst (Entry s) (sym e) (Entry-suc s k all)

-- The last accepting state behind `cs` and its position, from the state `s` at the position `p` on.
unfoldable pub furthest : List ℕ → ℕ → ℕ → ℕ × ℕ → ℕ × ℕ
furthest [] s p last = pick (s, p) last
furthest (c ∷ cs) s p last = furthest cs (next_state s (class c)) (suc p) (pick (s, p) last)

-- The match that a state at a position stands for, where the text starts at `bp`.
abbrev pub spot : ℕ → List ℕ → ℕ × ℕ → Match
spot bp all m = record { state = m.0; text = take (m.1 - bp) all; rest = drop (m.1 - bp) all }

-- No character leads from a state whose base is that of the jam to an accepting one.
pub furthest-jammed :
    (cs : List ℕ) (s p : ℕ) (last : ℕ × ℕ)
    → s < 14
    → base s ≡ 14
    → All IsByte cs
    → furthest cs s p last ≡ pick (s, p) last
unfolding furthest
furthest-jammed [] s p last h b w = refl
furthest-jammed (c ∷ cs) s p last h b (v, w) =
    let e = (entry_lem s c h v).jams b in
    rw e (furthest-jammed cs 13 (suc p) (pick (s, p) last) (omega arith) base_jam w ∙ pick_jam)
  where
    base_jam : base 13 ≡ 14
    base_jam = unfold base in refl

    pick_jam : {last : ℕ × ℕ} → pick (13, suc p) last ≡ last
    pick_jam = unfold pick accept in refl

-- The text up to a position, in a list that starts at `bp`.
record Reaches (bp : ℕ) (all text : List ℕ) (p : ℕ) (cs : List ℕ) : Type 0 where
  parts : all ≡ text ++ cs
  place : p ≡ bp + length text

Reaches-suc :
    {bp p : ℕ} {all text : List ℕ} (c : ℕ) (cs : List ℕ)
    → Reaches bp all text p (c ∷ cs)
    → Reaches bp all (text ++ (c ∷ [])) (suc p) cs
Reaches-suc {text} c cs r = record {
  parts = r.parts ∙ sym (snoc_append text cs c);
  place = omega (arith, r.place, length-snoc text c);
}

find_action-pick :
    {bp p : ℕ} {all text : List ℕ} (cs : List ℕ) (s : ℕ) (last : ℕ × ℕ)
    → Reaches bp all text p cs
    → find_action (record { state = s; text = text; rest = cs }) (spot bp all last)
      ≡ spot bp all (pick (s, p) last)
unfolding find_action pick
find_action-pick {bp} {p} {text} cs s last r = elim (Bool-cases (accept s == 0)) [
  | inl e ↦ rw e
  | inr e ↦
      let n : p - bp ≡ length text = omega (arith, r.place) in
      rw (e, n, r.parts, take-append text cs, drop-append text cs)
]

match_text-furthest :
    {bp : ℕ} (cs : List ℕ) {all : List ℕ} (text : List ℕ) (s p : ℕ) (last : ℕ × ℕ)
    → Reaches bp all text p cs
    → s < 14
    → All IsByte cs
    → match_text cs s text (spot bp all last) ≡ spot bp all (furthest cs s p last)
unfolding match_text furthest
match_text-furthest [] text s p last r h w = find_action-pick [] s last r
match_text-furthest (c ∷ cs) text s p last r h (v, w) =
    let r' = Reaches-suc c cs r in
    let s' = next_state s (class c) in
    let e = entry_lem s c h v in
    let seen = find_action-pick (c ∷ cs) s last r in
    elim (Bool-cases (base s' == 14)) [
      | inl b ↦
          rw (seen, b)
            (find_action-pick cs s' (pick (s, p) last) r'
              ∙ ap (spot _ _) (
                  sym
                    (furthest-jammed cs s' (suc p) (pick (s, p) last) e.is_state (==→eq _ _ b) w)))
      | inr b ↦
          rw (seen, b)
            (match_text-furthest cs (text ++ (c ∷ [])) s' (suc p) (pick (s, p) last) r' e.is_state
              w)
    ]

-- Behind the first character what was seen last does not matter, since every character is a match.
pub furthest_start :
    (c : ℕ) (cs : List ℕ) (p : ℕ) (last last' : ℕ × ℕ)
    → IsByte c
    → furthest (c ∷ cs) 1 p last ≡ furthest (c ∷ cs) 1 p last'
unfolding furthest pick
furthest_start c [] p last last' v = rw ((entry_lem 1 c (omega arith) v).accepts)
furthest_start c (d ∷ cs) p last last' v = rw ((entry_lem 1 c (omega arith) v).accepts)

match_start :
    (c : ℕ) (cs text : List ℕ) (m m' : Match)
    → IsByte c
    → match_text (c ∷ cs) 1 text m ≡ match_text (c ∷ cs) 1 text m'
unfolding match_text find_action
match_start c [] text m m' v = rw ((entry_lem 1 c (omega arith) v).accepts)
match_start c (d ∷ cs) text m m' v = rw ((entry_lem 1 c (omega arith) v).accepts)

-- The match of a token is the furthest accepting state, wherever the text starts and whatever was
-- seen before it.
pub match_token-furthest :
    (c : ℕ) (cs : List ℕ) (bp : ℕ) (last : ℕ × ℕ)
    → All IsByte (c ∷ cs)
    → match_token (c ∷ cs) ≡ spot bp (c ∷ cs) (furthest (c ∷ cs) 1 bp last)
unfolding match_token
match_token-furthest c cs bp last (v, w) =
    match_start c cs [] _ (spot bp (c ∷ cs) last) v
    ∙ match_text-furthest (c ∷ cs) [] 1 bp last (record { parts = refl; place = omega arith })
        (omega arith) (v, w)

pick-le : (s p : ℕ) (last : ℕ × ℕ) → last.1 ≤ p → (pick (s, p) last).1 ≤ suc p
unfolding pick
pick-le s p last h = ground arith

furthest-le :
    (cs : List ℕ) (s p : ℕ) (last : ℕ × ℕ) → last.1 ≤ p → (furthest cs s p last).1 ≤ p + length cs
unfolding furthest pick
furthest-le [] s p last h = ground arith
furthest-le (c ∷ cs) s p last h =
    omega (
      arith,
      furthest-le cs (next_state s (class c)) (suc p) (pick (s, p) last) (pick-le s p last h),
    )

pub furthest_start-le :
    (c : ℕ) (cs : List ℕ) (p : ℕ) (last : ℕ × ℕ)
    → IsByte c
    → (furthest (c ∷ cs) 1 p last).1 ≤ p + length (c ∷ cs)
furthest_start-le c cs p last v =
    rw (furthest_start c cs p last (0, 0) v) (furthest-le (c ∷ cs) 1 p (0, 0) (omega arith))

-- The text in two parts.
pub furthest-append :
    (xs ys : List ℕ) (s p : ℕ) (last : ℕ × ℕ)
    → furthest (xs ++ ys) s p last
      ≡ furthest ys (previous_state xs s p last).0 (p + length xs) (previous_state xs s p last).1
unfolding furthest previous_state
furthest-append [] ys s p last = let n : p + 0 ≡ p = omega arith in rw n
furthest-append (x ∷ xs) ys s p last =
    let n : p + length (x ∷ xs) ≡ suc p + length xs = omega arith in
    rw n (furthest-append xs ys (next_state s (class x)) (suc p) (pick (s, p) last))
