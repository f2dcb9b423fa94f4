-- ===== src/Implantation/Patch/Shape.antt =====
-- Contents of sections that have the same shape.
use mathlib.Core.Option.{some-injective}
use projet_prog.Common.{
  ℕ, zero, suc, ◌%◌, ◌^◌, ◌≡◌, refl, sym, ap, ◌∙◌, subst, List, [], ◌∷◌, some, arith, length,
  get_elem?, set, length-set, Option-cases, inl, inr,
}
use projet_prog.Stdio.{ok}
use projet_prog.Elf.{SectionContent, Buffer, uninit, null, block}
use projet_prog.Implantation.Patch.{store_byte}

-- A block of the same length, or the same pointer that is none.
unfoldable pub SameBlock : Buffer → Buffer → Type 0
SameBlock uninit b = b ≡ uninit
SameBlock null b = b ≡ null
SameBlock (block bs) b = (bs' : List ℕ) × (b ≡ block bs') × (length bs' ≡ length bs)

pub SameBlock-refl : (b : Buffer) → SameBlock b b
unfolding SameBlock
SameBlock-refl uninit = refl
SameBlock-refl null = refl
SameBlock-refl (block bs) = (bs, refl, refl)

SameBlock-trans : (a b c : Buffer) → SameBlock a b → SameBlock b c → SameBlock a c
unfolding SameBlock
SameBlock-trans uninit uninit c p q = q
SameBlock-trans uninit null c p q = absurd cc
SameBlock-trans uninit (block bs) c p q = absurd cc
SameBlock-trans null uninit c p q = absurd cc
SameBlock-trans null null c p q = q
SameBlock-trans null (block bs) c p q = absurd cc
SameBlock-trans (block bs) uninit c (_, p, _) q = absurd cc
SameBlock-trans (block bs) null c (_, p, _) q = absurd cc
SameBlock-trans (block bs) (block bs1) c (bs2, p, h) (bs3, q, k) = (bs3, q, k ∙ cc)

-- The same number of contents, each with the same size and a block of the same length.
unfoldable pub SameShape : List SectionContent → List SectionContent → Type 0
SameShape [] [] = Unit {0}
SameShape [] (c' ∷ l') = ⊥
SameShape (c ∷ l) [] = ⊥
SameShape (c ∷ l) (c' ∷ l') = (c'.size ≡ c.size) × SameBlock c.section c'.section × SameShape l l'

pub SameShape-refl : (l : List SectionContent) → SameShape l l
unfolding SameShape
SameShape-refl [] = tt
SameShape-refl (c ∷ l) = (refl, SameBlock-refl c.section, SameShape-refl l)

pub SameShape-trans : (a b c : List SectionContent) → SameShape a b → SameShape b c → SameShape a c
unfolding SameShape
SameShape-trans [] [] c p q = q
SameShape-trans [] (y ∷ b) c p q = absurd p
SameShape-trans (x ∷ a) [] c p q = absurd p
SameShape-trans (x ∷ a) (y ∷ b) [] p q = absurd q
SameShape-trans (x ∷ a) (y ∷ b) (z ∷ c) (p, s, m) (q, t, n) =
    (q ∙ p, SameBlock-trans x.section y.section z.section s t, SameShape-trans a b c m n)

pub length-SameShape : (a b : List SectionContent) → SameShape a b → length b ≡ length a
unfolding SameShape
length-SameShape [] [] w = refl
length-SameShape [] (c ∷ b) w = absurd w
length-SameShape (c ∷ a) [] w = absurd w
length-SameShape (c ∷ a) (c' ∷ b) (_, _, w) = ap suc (length-SameShape a b w)

pub set-SameShape :
    (l : List SectionContent) (i : ℕ) (c : SectionContent) (b : Buffer)
    → get_elem? l i ≡ some c
    → SameBlock c.section b
    → SameShape l (set l i (record c { section = b }))
unfolding SameShape
set-SameShape [] i c b e s = absurd cc
set-SameShape (x ∷ l) zero c b e s =
    let p : c ≡ x = sym (some-injective x c e) in
    (ap (λ y. y.size) p, subst (λ y. SameBlock y.section b) p s, SameShape-refl l)
set-SameShape (x ∷ l) (suc i) c b e s = (refl, SameBlock-refl x.section, set-SameShape l i c b e s)

pub store_byte-SameBlock :
    (b : Buffer) (offset value : ℕ) {b' : Buffer}
    → store_byte b offset value ≡ ok b'
    → SameBlock b b'
unfolding store_byte SameBlock
store_byte-SameBlock uninit offset value e = absurd cc
store_byte-SameBlock null offset value e = absurd cc
store_byte-SameBlock (block bs) offset value e = elim (Option-cases (get_elem? bs offset)) [
  | inl p ↦ absurd (ground arith)
  | inr (x, p) ↦ (set bs offset (value % 2 ^ 8), ground arith, length-set bs offset (value % 2 ^ 8))
]
