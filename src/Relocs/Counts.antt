-- ===== src/Relocs/Counts.antt =====
-- The counts that `load_reloc_table` stores beside the tables.
use projet_prog.Common.{
  ℕ, zero, suc, ◌+◌, ◌/◌, ◌≤◌, ◌≡◌, refl, sym, ap, ◌∙◌, Option, List, [], ◌∷◌, map, ltb, ltb→lt,
  ◌==◌, if◌then◌else◌, length, arith, Bool-cases, inl, inr, length-map,
}
use projet_prog.Stdio.{fseek, Stream, ok}
use projet_prog.Stdio.Outcomes.{ok_not_fault}
use projet_prog.Stdio.Gives.{Gives, pure-Gives, bind-Gives, any_Gives}
use projet_prog.Elf.{Ehdr, Shdr, Rel, TableauSectionReloc, sht_rel}
use projet_prog.Sections.{array}
use projet_prog.Relocs.{load_rel, load_rels, load_tables, tables_or_null, load_reloc_table}

-- The number of entries of each relocation section among the first `n`.
unfoldable pub rel_sizes : ℕ → List Shdr → List ℕ
rel_sizes zero l = []
rel_sizes (suc n) [] = []
rel_sizes (suc n) (s ∷ l) =
    if s.sh_type == sht_rel then (s.sh_size / 8) ∷ rel_sizes n l else rel_sizes n l

load_rels-Gives : (n : ℕ) → Gives (load_rels n) (λ l. length l ≡ n)
unfolding load_rels
load_rels-Gives zero = pure-Gives (λ l. length l ≡ 0) [] refl
load_rels-Gives (suc n) = any_Gives load_rel _ λ r.
    bind-Gives (load_rels n) _ (load_rels-Gives n)
      λ l w. pure-Gives (λ l. length l ≡ suc n) (r ∷ l) (omega arith)

not_null :
    (ts : List (List Rel × ℕ))
    → map length (array (tables_or_null (map (λ t. t.0) ts))) ≡ map (λ t. length t.0) ts
not_null [] = refl
not_null (t ∷ ts) = ap (λ x. length t.0 ∷ x) (twice ts)
  where
    twice : (ts : List (List Rel × ℕ)) → map length (map (λ t. t.0) ts) ≡ map (λ t. length t.0) ts
    twice [] = refl
    twice (t ∷ ts) = ap (λ x. length t.0 ∷ x) (twice ts)

abbrev Tables : List ℕ → ℕ → List (List Rel × ℕ) → Type 0
Tables sizes k ts =
    (map (λ t. t.1) ts ≡ sizes) × (map (λ t. length t.0) ts ≡ sizes) × (k + length ts ≤ 256)

load_tables-Gives :
    (n : ℕ) (l : List Shdr) (k : ℕ) → k ≤ 256 → Gives (load_tables n l k) (Tables (rel_sizes n l) k)
unfolding load_tables rel_sizes
load_tables-Gives zero l k h = pure-Gives (Tables [] k) [] (refl, refl, omega arith)
load_tables-Gives (suc n) [] k h = λ f ts f' e. absurd (ok_not_fault e)
load_tables-Gives (suc n) (s ∷ l) k h = elim (Bool-cases (s.sh_type == sht_rel)) [
  | inr p ↦ rw (p, load_tables, rel_sizes) (load_tables-Gives n l k h)
  | inl p ↦ elim (Bool-cases (ltb k 256)) [
    | inr q ↦ rw (p, q, load_tables) (λ f ts f' e. absurd (ok_not_fault e))
    | inl q ↦
        rw (p, q, load_tables, rel_sizes)
          (any_Gives (fseek s.sh_offset) _ λ u.
            bind-Gives (load_rels (s.sh_size / 8)) _ (load_rels-Gives (s.sh_size / 8)) λ rels v.
              bind-Gives (load_tables n l (suc k)) _
                (load_tables-Gives n l (suc k) (omega (arith, ltb→lt k 256 q)))
                λ more w.
                  pure-Gives (Tables ((s.sh_size / 8) ∷ rel_sizes n l) k)
                    ((rels, s.sh_size / 8) ∷ more)
                    (
                      ap (λ x. (s.sh_size / 8) ∷ x) w.0,
                      rw v (ap (λ x. (s.sh_size / 8) ∷ x) w.1),
                      omega (arith, w.2),
                    ))
  ]
]

-- Where the relocation tables are loaded, there are at most 256; TabNb holds, in order, the numbers of
-- whole entries of the relocation sections among the first e_shnum, nbSections is how many of them
-- there are, and the tables have as many entries as TabNb says.
pub load_reloc_table_counts :
    (h : Ehdr) (sects : List Shdr) (f : Stream) (tables : Option (List (List Rel)))
    (tab : TableauSectionReloc) {f' : Stream}
    → load_reloc_table h sects f ≡ ok ((tables, tab), f')
    → (tab.tab_nb ≡ rel_sizes h.e_shnum sects)
      × (tab.nb_sections ≡ length tab.tab_nb)
      × (tab.nb_sections ≤ 256)
      × (map length (array tables) ≡ tab.tab_nb)
unfolding load_reloc_table
load_reloc_table_counts h sects f tables tab {f'} e =
    bind-Gives (load_tables h.e_shnum sects 0) _ (load_tables-Gives h.e_shnum sects 0 (omega arith))
      (λ ts w. pure-Gives Counted _ (counted ts w)) f (tables, tab) f' e
  where
    Counted : Option (List (List Rel)) × TableauSectionReloc → Type 0
    Counted r =
        (r.1.tab_nb ≡ rel_sizes h.e_shnum sects)
        × (r.1.nb_sections ≡ length r.1.tab_nb)
        × (r.1.nb_sections ≤ 256)
        × (map length (array r.0) ≡ r.1.tab_nb)

    counted :
        (ts : List (List Rel × ℕ))
        → Tables (rel_sizes h.e_shnum sects) 0 ts
        → Counted (
          tables_or_null (map (λ t. t.0) ts),
          record { tab_nb = map (λ t. t.1) ts; nb_sections = length ts },
        )
    counted ts (a, b, c) = (a, sym (length-map ts (λ t. t.1)), omega arith, not_null ts ∙ b ∙ sym a)
