-- ===== src/Implantation/Delete/Result.antt =====
-- What `delete_rel` makes of the sections, of the symbols and of the table of names.
use mathlib.Core.Option.{some-injective}
use projet_prog.Common.{
  ℕ, zero, suc, ◌≡◌, refl, sym, ◌∙◌, subst, List, [], ◌∷◌, some, get_elem?, false,
}
use projet_prog.Stdio.{ok}
use projet_prog.Stdio.Outcomes.{ok-injective}
use projet_prog.Elf.{Symbol, ElfMain}
use projet_prog.Sections.{array}
use projet_prog.Implantation.Delete.{delete_rel}
use projet_prog.Implantation.Delete.Rows.{Row, is_rel, keep}
use projet_prog.Implantation.Delete.Kept.{IsReady, SameRow, SameRows, all_rows}
use projet_prog.Implantation.Delete.Laws.{delete_rel_result}

get_elem?-SameRows :
    (l l' : List Row) (ss ts : List Symbol) (i : ℕ) {s : Symbol}
    → SameRows l l' ss ts
    → get_elem? ss i ≡ some s
    → (t : Symbol) × (get_elem? ts i ≡ some t)
      × (t ≡ record s { st_shndx = t.st_shndx })
      × SameRow l l' s.st_shndx t.st_shndx
get_elem?-SameRows l l' [] ts i w e = absurd cc
get_elem?-SameRows l l' (x ∷ ss) [] i w e = absurd w
get_elem?-SameRows l l' (x ∷ ss) (t ∷ ts) zero {s} (p, q, w) e =
    let same : x ≡ s = some-injective x s e in
    subst
      (λ s.
        (t' : Symbol) × (get_elem? (t ∷ ts) 0 ≡ some t')
        × (t' ≡ record s { st_shndx = t'.st_shndx })
        × SameRow l l' s.st_shndx t'.st_shndx)
      same (t, refl, q, p)
get_elem?-SameRows l l' (x ∷ ss) (t ∷ ts) (suc i) (p, q, w) e = get_elem?-SameRows l l' ss ts i w e

-- Let a structure have a header and a content for each section, fewer than 2 ^ 16, as many symbols,
-- if any, as it counts, and from the first relocation section on only contents that were read and
-- are not empty. Then `delete_rel` ends without a fault, and its table of sections is the old one
-- without the relocation sections, in order and with the contents, offsets and links apart.
pub delete_rel_table :
    (e : ElfMain)
    → IsReady e
    → (e' : ElfMain) × (delete_rel e ≡ ok e') × (all_rows e' ≡ keep (all_rows e))
delete_rel_table e w = let (e', p, q, _, _) = delete_rel_result e w in (e', p, q)

-- Let a structure have a header and a content for each section, fewer than 2 ^ 16, as many symbols,
-- if any, as it counts, and from the first relocation section on only contents that were read and
-- are not empty. Of a symbol whose section is there and is not a relocation section, `delete_rel`
-- changes nothing but the section index, and the symbol belongs to the same section afterwards, at
-- the index that this has then.
pub delete_rel_symbols :
    (e : ElfMain) {e' : ElfMain} (i : ℕ) (s : Symbol) (x : Row)
    → IsReady e
    → delete_rel e ≡ ok e'
    → get_elem? (array e.sym_table) i ≡ some s
    → get_elem? (all_rows e) s.st_shndx ≡ some x
    → is_rel x ≡ false
    → (t : Symbol) × (get_elem? (array e'.sym_table) i ≡ some t)
      × (t ≡ record s { st_shndx = t.st_shndx })
      × (get_elem? (all_rows e') t.st_shndx ≡ some x)
delete_rel_symbols e i s x w p g h n =
    let (e1, p1, _, symbols, _) = delete_rel_result e w in
    let same = ok-injective (sym p1 ∙ p) in
    let (t, at_i, q, kept) =
      get_elem?-SameRows _ _ _ _ i
        (subst (λ z. SameRows (all_rows e) (all_rows z) (array e.sym_table) (array z.sym_table))
          same symbols)
        g in
    (t, at_i, q, kept x h n)

-- Let a structure have a header and a content for each section, fewer than 2 ^ 16, as many symbols,
-- if any, as it counts, and from the first relocation section on only contents that were read and
-- are not empty. If e_shstrndx is the index of a section that is not a relocation section, it is
-- that of the same section after `delete_rel`.
pub delete_rel_names :
    (e : ElfMain) {e' : ElfMain} (x : Row)
    → IsReady e
    → delete_rel e ≡ ok e'
    → get_elem? (all_rows e) e.header.e_shstrndx ≡ some x
    → is_rel x ≡ false
    → get_elem? (all_rows e') e'.header.e_shstrndx ≡ some x
delete_rel_names e x w p h n =
    let (e1, p1, _, _, names) = delete_rel_result e w in
    subst (λ z. get_elem? (all_rows z) z.header.e_shstrndx ≡ some x) (ok-injective (sym p1 ∙ p))
      (names x h n)
