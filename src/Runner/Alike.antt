-- ===== src/Runner/Alike.antt =====
-- Two structures with the same layout: other symbols and other bytes, but as many of them.
use mathlib.Core.Option.{some-injective}
use projet_prog.Common.{
  ℕ, zero, suc, ◌+◌, ◌*◌, ◌≡◌, inl, inr, refl, sym, ap, ◌∙◌, subst, List, [], ◌∷◌, some, arith,
  length, get_elem?, ◌==◌, Bool-cases,
}
use projet_prog.Common.Words.{put16, put32, le_bytes16, le_bytes32}
use projet_prog.Elf.{Ehdr, Shdr, Symbol, SectionContent, Buffer, uninit, block, ElfMain, sht_symtab}
use projet_prog.Sections.{array}
use projet_prog.Symbols.RoundTrip.{symbol_bytes}
use projet_prog.Contents.Held.{no_content, content_of, IsSized, Sized}
use projet_prog.Writer.{TempTab, symbol_chunks}
use projet_prog.Writer.Layout.{written, Laid, done, skip, put}
use projet_prog.Writer.Tabs.{written_all}
use projet_prog.Implantation.Patch.Shape.{SameBlock, SameShape}

length-symbol_bytes : (l : List Symbol) → length (symbol_bytes l) ≡ 16 * length l
unfolding symbol_chunks put16 put32 le_bytes16 le_bytes32
length-symbol_bytes [] = refl
length-symbol_bytes (s ∷ l) = omega (arith, length-symbol_bytes l)

-- Contents of one form: the same size, and blocks of one length.
abbrev SameForm : SectionContent → SectionContent → Type 0
SameForm c c' = (c'.size ≡ c.size) × SameBlock c.section c'.section

content_eq :
    (c : SectionContent) (b : Buffer) (n : ℕ)
    → c.section ≡ b
    → c.size ≡ n
    → c ≡ record { section = b; size = n }
content_eq c b n p q =
    ap (λ x. record { section = x; size = c.size }) p ∙ ap (λ x. record { section = b; size = x }) q

same_empty : (c c' : SectionContent) → c ≡ no_content → SameForm c c' → c' ≡ no_content
unfolding SameBlock
same_empty c c' p w =
    let (size, section) : SameForm no_content c' = rw p at w in content_eq c' uninit 0 section size

same_block :
    (c c' : SectionContent) (bs : List ℕ)
    → c ≡ content_of bs
    → SameForm c c'
    → (bs' : List ℕ) × (c' ≡ content_of bs') × (length bs' ≡ length bs)
unfolding SameBlock
same_block c c' bs p w =
    let (size, (bs', section, k)) : SameForm (content_of bs) c' = rw p at w in
    (bs', content_eq c' (block bs') (length bs') section (size ∙ sym k), k)

written-SameForm :
    (syms syms' : List Symbol) (s : Shdr) (c c' : SectionContent)
    → length syms' ≡ length syms
    → SameForm c c'
    → SameForm (written syms s c) (written syms' s c')
unfolding written SameBlock
written-SameForm syms syms' s c c' k w =
    let same : length (symbol_bytes syms') ≡ length (symbol_bytes syms) =
      omega (arith, k, length-symbol_bytes syms, length-symbol_bytes syms') in
    elim (Bool-cases (s.sh_type == sht_symtab)) [
      | inl t ↦ rw t (same, (symbol_bytes syms', refl, same))
      | inr t ↦ rw t w
    ]

get_elem?-SameShape :
    (a b : List SectionContent) (i : ℕ) {c : SectionContent}
    → SameShape a b
    → get_elem? a i ≡ some c
    → (c' : SectionContent) × (get_elem? b i ≡ some c') × SameForm c c'
unfolding SameShape
get_elem?-SameShape [] b i w e = absurd cc
get_elem?-SameShape (x ∷ a) [] i w e = absurd w
get_elem?-SameShape (x ∷ a) (y ∷ b) zero (p, q, w) e =
    (y, refl, subst (λ c. SameForm c y) (some-injective _ _ e) (p, q))
get_elem?-SameShape (x ∷ a) (y ∷ b) (suc i) (p, q, w) e = get_elem?-SameShape a b i w e

pub written_all-SameShape :
    (syms syms' : List Symbol) (l : List Shdr) (a b : List SectionContent)
    → length syms' ≡ length syms
    → SameShape a b
    → SameShape (written_all syms l a) (written_all syms' l b)
unfolding SameShape
written_all-SameShape syms syms' [] a b k w = tt
written_all-SameShape syms syms' (s ∷ l) [] [] k w = tt
written_all-SameShape syms syms' (s ∷ l) [] (y ∷ b) k w = absurd w
written_all-SameShape syms syms' (s ∷ l) (x ∷ a) [] k w = absurd w
written_all-SameShape syms syms' (s ∷ l) (x ∷ a) (y ∷ b) k (p, q, w) =
    let (size, section) = written-SameForm syms syms' s x y k (p, q) in
    (size, section, written_all-SameShape syms syms' l a b k w)

pub Sized-SameShape :
    (h : Ehdr) (sects : List Shdr) (n : ℕ) (l : List Shdr) (a b : List SectionContent)
    → SameShape a b
    → Sized h sects n l a
    → Sized h sects n l b
unfolding SameShape
Sized-SameShape h sects zero l [] [] w z = tt
Sized-SameShape h sects zero l [] (y ∷ b) w z = absurd w
Sized-SameShape h sects zero l (x ∷ a) b w z = absurd z
Sized-SameShape h sects (suc n) [] a b w z = absurd z
Sized-SameShape h sects (suc n) (s ∷ l) [] b w z = absurd z
Sized-SameShape h sects (suc n) (s ∷ l) (x ∷ a) [] w z = absurd w
Sized-SameShape h sects (suc n) (s ∷ l) (x ∷ a) (y ∷ b) (p, q, w) (z, zs) =
    (IsSized-SameForm z, Sized-SameShape h sects n l a b w zs)
  where
    IsSized-SameForm : IsSized h sects n s l x → IsSized h sects n s l y
    IsSized-SameForm (inl (e, c)) = inl (e, same_empty x y c (p, q))
    IsSized-SameForm (inr (bs, c, e, nz, size)) =
        let (bs', c', k) = same_block x y bs c (p, q) in
        inr (bs', c', e, (λ o. nz (sym k ∙ o)), rw k size)

pub Laid-SameShape :
    (e e' : ElfMain) (syms syms' : List Symbol) (pos end : ℕ) (ts : List TempTab)
    → e'.sect_header ≡ e.sect_header
    → SameShape e.section_content e'.section_content
    → length syms' ≡ length syms
    → Laid e syms pos ts end
    → Laid e' syms' pos ts end
Laid-SameShape e e' syms syms' pos end [] h w k done = done
Laid-SameShape e e' syms syms' pos end (t ∷ ts) h w k (skip s c p q empty l) =
    let (c', q', form) = get_elem?-SameShape e.section_content e'.section_content t.indice w q in
    skip s c' (ap (λ o. get_elem? (array o) t.indice) h ∙ p) q'
      (same_empty _ _ empty (written-SameForm syms syms' s c c' k form))
      (Laid-SameShape e e' syms syms' pos end ts h w k l)
Laid-SameShape e e' syms syms' pos end (t ∷ ts) h w k (put s c bs p q full nz o l) =
    let (c', q', form) = get_elem?-SameShape e.section_content e'.section_content t.indice w q in
    let (bs', full', m) = same_block _ _ bs full (written-SameForm syms syms' s c c' k form) in
    let next : Laid e' syms' (pos + length bs) ts end =
      Laid-SameShape e e' syms syms' (pos + length bs) end ts h w k l in
    put s c' bs' (ap (λ o. get_elem? (array o) t.indice) h ∙ p) q' full' (λ z. nz (sym m ∙ z)) o
      (subst (λ n. Laid e' syms' (pos + n) ts end) (sym m) next)
