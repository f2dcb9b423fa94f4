-- ===== src/Implantation/Patch/Kept.antt =====
-- What `correct_abs_reloc` leaves as it was.
use mathlib.Core.Option.{some-injective}
use projet_prog.Common.{
  ℕ, zero, suc, ◌≡◌, ◌≢◌, refl, sym, ap, ◌∙◌, subst, List, [], ◌∷◌, some, get_elem?, set, All,
  Option-cases, Bool-cases, inl, inr, ◌==◌,
}
use projet_prog.Stdio.{ok}
use projet_prog.Stdio.Outcomes.{Outcome-cases, ok-injective, ok_not_exit, ok_not_fault}
use projet_prog.Elf.{Shdr, Symbol, Rel, SectionContent, Buffer, ElfMain, r_sym, r_type}
use projet_prog.Sections.{array}
use projet_prog.Implantation.Patch.{patch, apply_rel, apply_rels, apply_tables, correct_abs_reloc}
use projet_prog.Implantation.Patch.Shape.{
  SameBlock, SameBlock-refl, SameShape, SameShape-refl, SameShape-trans, set-SameShape,
  store_byte-SameBlock,
}

get_elem?-All :
    {A : Type 0} (P : A → Type 0) (l : List A) (i : ℕ) {x : A}
    → All P l
    → get_elem? l i ≡ some x
    → P x
get_elem?-All P [] i w e = absurd cc
get_elem?-All P (y ∷ l) zero {x} (p, w) e = subst P (some-injective y x e) p
get_elem?-All P (y ∷ l) (suc i) (p, w) e = get_elem?-All P l i w e

get_elem?-set_other :
    {A : Type 0} (l : List A) (i k : ℕ) (v : A) → i ≢ k → get_elem? (set l i v) k ≡ get_elem? l k
get_elem?-set_other [] i k v n = refl
get_elem?-set_other (x ∷ l) zero zero v n = absurd (n refl)
get_elem?-set_other (x ∷ l) zero (suc k) v n = refl
get_elem?-set_other (x ∷ l) (suc i) zero v n = refl
get_elem?-set_other (x ∷ l) (suc i) (suc k) v n = get_elem?-set_other l i k v λ e. n (ap suc e)

patch-SameBlock :
    (r : Rel) (s : Symbol) (own : Shdr) (b : Buffer) {b' : Buffer}
    → patch r s own b ≡ ok b'
    → SameBlock b b'
unfolding patch
patch-SameBlock r s own b {b'} e = elim (Bool-cases (r_type r.r_info == 5)) [
  | inl p ↦ store_byte-SameBlock b _ _ (rw p at e)
  | inr p ↦ elim (Bool-cases (r_type r.r_info == 8)) [
    | inl q ↦ store_byte-SameBlock b _ _ (rw (p, q) at e)
    | inr q ↦ subst (SameBlock b) (ok-injective (rw (p, q) at e)) (SameBlock-refl b)
  ]
]

-- The contents are as before, but for the bytes of those that some header has in its sh_info.
unfoldable Kept : List Shdr → List SectionContent → List SectionContent → Type 0
Kept sects contents contents' =
    SameShape contents contents'
    × ((k : ℕ) → All (λ s. s.sh_info ≢ k) sects → get_elem? contents' k ≡ get_elem? contents k)

Kept-same :
    (sects : List Shdr) (a : List SectionContent) {b : List SectionContent} → a ≡ b → Kept sects a b
unfolding Kept
Kept-same sects a e = subst (Kept sects a) e (SameShape-refl a, λ k w. refl)

Kept-trans :
    (sects : List Shdr) (a b c : List SectionContent)
    → Kept sects a b
    → Kept sects b c
    → Kept sects a c
unfolding Kept
Kept-trans sects a b c (p, s) (q, t) = (SameShape-trans a b c p q, λ k w. t k w ∙ s k w)

module _ (sects : List Shdr) (syms : List Symbol) where
  -- A relocation that succeeds has a symbol, which has a section, whose sh_info has a content.
  apply_rel_inv :
      (r : Rel) (contents : List SectionContent) {contents' : List SectionContent}
      → apply_rel sects syms r contents ≡ ok contents'
      → (s : Symbol) × (own : Shdr) × (c : SectionContent) × (b : Buffer) × (get_elem? sects
            s.st_shndx
          ≡ some own)
        × (get_elem? contents own.sh_info ≡ some c)
        × (patch r s own c.section ≡ ok b)
        × (set contents own.sh_info (record c { section = b }) ≡ contents')
  unfolding apply_rel
  apply_rel_inv r contents e = elim (Option-cases (get_elem? syms (r_sym r.r_info))) [
    | inl p ↦ absurd (ok_not_fault (rw (p, apply_rel) at e))
    | inr (s, p) ↦ elim (Option-cases (get_elem? sects s.st_shndx)) [
      | inl q ↦ absurd (ok_not_fault (rw (p, q, apply_rel) at e))
      | inr (own, q) ↦ elim (Option-cases (get_elem? contents own.sh_info)) [
        | inl t ↦ absurd (ok_not_fault (rw (p, q, t, apply_rel) at e))
        | inr (c, t) ↦ elim (Outcome-cases (patch r s own c.section)) [
          | inl (b, u) ↦ (s, own, c, b, q, t, u, ok-injective (rw (p, q, t, u, apply_rel) at e))
          | inr (inl u) ↦ absurd (ok_not_exit (rw (p, q, t, u, apply_rel) at e))
          | inr (inr u) ↦ absurd (ok_not_fault (rw (p, q, t, u, apply_rel) at e))
        ]
      ]
    ]
  ]

  apply_rel-Kept :
      (r : Rel) (contents : List SectionContent) {contents' : List SectionContent}
      → apply_rel sects syms r contents ≡ ok contents'
      → Kept sects contents contents'
  unfolding Kept
  apply_rel-Kept r contents e =
      let (s, own, c, b, p, q, t, u) = apply_rel_inv r contents e in
      subst (Kept sects contents) u (
        set-SameShape contents own.sh_info c b q (patch-SameBlock r s own c.section t),
        λ k w.
            get_elem?-set_other contents own.sh_info k _
              (get_elem?-All (λ x. x.sh_info ≢ k) sects s.st_shndx w p),
      )

  apply_rels-Kept :
      (n : ℕ) (l : List Rel) (contents : List SectionContent) {contents' : List SectionContent}
      → apply_rels sects syms n l contents ≡ ok contents'
      → Kept sects contents contents'
  unfolding apply_rels
  apply_rels-Kept zero l contents e = Kept-same sects contents (ok-injective e)
  apply_rels-Kept (suc n) [] contents e = absurd cc
  apply_rels-Kept (suc n) (r ∷ l) contents e =
      elim (Outcome-cases (apply_rel sects syms r contents)) [
        | inl (contents1, p) ↦
            Kept-trans sects contents contents1 _ (apply_rel-Kept r contents p)
              (apply_rels-Kept n l contents1 (rw (p, apply_rels) at e))
        | inr (inl p) ↦ absurd (ok_not_exit (rw (p, apply_rels) at e))
        | inr (inr p) ↦ absurd (ok_not_fault (rw (p, apply_rels) at e))
      ]

  apply_tables-Kept :
      (n : ℕ) (counts : List ℕ) (tables : List (List Rel)) (contents : List SectionContent)
      {contents' : List SectionContent}
      → apply_tables sects syms n counts tables contents ≡ ok contents'
      → Kept sects contents contents'
  unfolding apply_tables
  apply_tables-Kept zero counts tables contents e = Kept-same sects contents (ok-injective e)
  apply_tables-Kept (suc n) [] tables contents e = absurd cc
  apply_tables-Kept (suc n) (k ∷ counts) [] contents e = absurd cc
  apply_tables-Kept (suc n) (k ∷ counts) (t ∷ tables) contents e =
      elim (Outcome-cases (apply_rels sects syms k t contents)) [
        | inl (contents1, p) ↦
            Kept-trans sects contents contents1 _ (apply_rels-Kept k t contents p)
              (apply_tables-Kept n counts tables contents1 (rw (p, apply_tables) at e))
        | inr (inl p) ↦ absurd (ok_not_exit (rw (p, apply_tables) at e))
        | inr (inr p) ↦ absurd (ok_not_fault (rw (p, apply_tables) at e))
      ]

correct_abs_reloc-Kept :
    (e : ElfMain) {e' : ElfMain}
    → correct_abs_reloc e ≡ ok e'
    → (e' ≡ record e { section_content = e'.section_content })
      × Kept (array e.sect_header) e.section_content e'.section_content
unfolding correct_abs_reloc
correct_abs_reloc-Kept e {e'} h =
    elim (Outcome-cases (
      apply_tables (array e.sect_header) (array e.sym_table) e.tab_sec_rel.nb_sections
        e.tab_sec_rel.tab_nb (array e.rel_table) e.section_content)) [
          | inl (contents, p) ↦
              let q = ok-injective (rw (p, correct_abs_reloc) at h) in
              let kept =
                subst (λ x. Kept (array e.sect_header) e.section_content x.section_content) q
                  (apply_tables-Kept (array e.sect_header) (array e.sym_table)
                    e.tab_sec_rel.nb_sections e.tab_sec_rel.tab_nb (array e.rel_table)
                    e.section_content p) in
              (sym q ∙ ap (λ x. record e { section_content = x.section_content }) q, kept)
          | inr (inl p) ↦ absurd (ok_not_exit (rw (p, correct_abs_reloc) at h))
          | inr (inr p) ↦ absurd (ok_not_fault (rw (p, correct_abs_reloc) at h))
        ]

-- Where `correct_abs_reloc` succeeds, it changes the contents of sections only, and it keeps their
-- number, their sizes and the lengths of their blocks.
pub correct_abs_reloc-SameShape :
    (e : ElfMain) {e' : ElfMain}
    → correct_abs_reloc e ≡ ok e'
    → (e' ≡ record e { section_content = e'.section_content })
      × SameShape e.section_content e'.section_content
unfolding Kept
correct_abs_reloc-SameShape e h = let (p, kept) = correct_abs_reloc-Kept e h in (p, kept.0)

-- Where `correct_abs_reloc` succeeds, it leaves the content of a section alone whose index is the
-- sh_info of no section header.
pub correct_abs_reloc_elsewhere :
    (e : ElfMain) {e' : ElfMain} (k : ℕ)
    → correct_abs_reloc e ≡ ok e'
    → All (λ s. s.sh_info ≢ k) (array e.sect_header)
    → get_elem? e'.section_content k ≡ get_elem? e.section_content k
unfolding Kept
correct_abs_reloc_elsewhere e k h w = (correct_abs_reloc-Kept e h).1.1 k w
