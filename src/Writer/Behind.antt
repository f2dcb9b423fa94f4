-- ===== src/Writer/Behind.antt =====
-- The functions that write to the destination leave what stands before the position.
use mathlib.Core.List.{append_assoc, append-nil}
use projet_prog.Common.{
  ℕ, zero, suc, ◌≡◌, inl, inr, refl, sym, ap, ◌∙◌, subst, List, [], ◌∷◌, ◌++◌, map, Bool-cases,
  Option-cases, ◌==◌, get_elem?, take, ltb, length,
}
use projet_prog.Common.Words.{put32}
use projet_prog.Stdio.{Dest, fwrite, flatten, before-write_chunks, write_chunks, Outcome, ok}
use projet_prog.Stdio.Outcomes.{Outcome-cases, ok-injective, ok_not_exit, ok_not_fault}
use projet_prog.Elf.{Shdr, Symbol, SectionContent, Buffer-cases, ElfMain, sht_symtab}
use projet_prog.Sections.{array, shdr_words, write_shdrs, write_section_header}
use projet_prog.Writer.{
  TempTab, temp_tabs, symbol_chunks, write_symbols, write_block, write_section, write_sections,
  write_section_content,
}

-- What stands before the position of `d'` starts with what does for `d`.
unfoldable pub IsBehind : Dest → Dest → Type 0
IsBehind d d' = (bs : List ℕ) × (d'.before ≡ d.before ++ bs)

IsBehind-refl : {d d' : Dest} → Outcome.ok d ≡ ok d' → IsBehind d d'
unfolding IsBehind
IsBehind-refl {d} {d'} e = ([], sym (append-nil d.before ∙ ap (λ x. x.before) (ok-injective e)))

pub IsBehind-trans : (a b c : Dest) → IsBehind a b → IsBehind b c → IsBehind a c
unfolding IsBehind
IsBehind-trans a b c (x, p) (y, q) = (x ++ y, q ∙ rw (p, append_assoc))

chunks-IsBehind : (cs : List (List ℕ)) (d : Dest) → IsBehind d (write_chunks cs d)
unfolding IsBehind
chunks-IsBehind cs d = (flatten cs, before-write_chunks cs d)

write_shdrs-IsBehind :
    (n : ℕ) (l : List Shdr) (d : Dest) {d' : Dest} → write_shdrs n l d ≡ ok d' → IsBehind d d'
unfolding write_shdrs
write_shdrs-IsBehind zero l d e = IsBehind-refl e
write_shdrs-IsBehind (suc n) [] d e = absurd (ok_not_fault e)
write_shdrs-IsBehind (suc n) (s ∷ l) d e =
    IsBehind-trans d _ _ (chunks-IsBehind (map put32 (shdr_words s)) d)
      (write_shdrs-IsBehind n l (write_chunks (map put32 (shdr_words s)) d) e)

write_symbols-IsBehind :
    (n : ℕ) (l : List Symbol) (d : Dest) {d' : Dest} → write_symbols n l d ≡ ok d' → IsBehind d d'
unfolding write_symbols
write_symbols-IsBehind zero l d e = IsBehind-refl e
write_symbols-IsBehind (suc n) [] d e = absurd (ok_not_fault e)
write_symbols-IsBehind (suc n) (s ∷ l) d e =
    IsBehind-trans d _ _ (chunks-IsBehind (symbol_chunks s) d)
      (write_symbols-IsBehind n l (write_chunks (symbol_chunks s) d) e)

fwrite-IsBehind : (bs : List ℕ) (d : Dest) → IsBehind d (fwrite bs d)
unfolding IsBehind fwrite
fwrite-IsBehind bs d = (bs, refl)

write_block-IsBehind :
    (c : SectionContent) (d : Dest) {d' : Dest} → write_block c d ≡ ok d' → IsBehind d d'
unfolding write_block
write_block-IsBehind c d e = elim (Bool-cases (c.size == 0)) [
  | inl p ↦ IsBehind-refl (rw (p, write_block) at e)
  | inr p ↦ elim (Buffer-cases c.section) [
    | inl q ↦ absurd (ok_not_fault (rw (p, q, write_block) at e))
    | inr (inl q) ↦ absurd (ok_not_fault (rw (p, q, write_block) at e))
    | inr (inr (bs, q)) ↦ elim (Bool-cases (ltb (length bs) c.size)) [
      | inl long ↦ absurd (ok_not_fault (rw (p, q, long, write_block) at e))
      | inr long ↦
          subst (IsBehind d) (ok-injective (rw (p, q, long, write_block) at e))
            (fwrite-IsBehind (take c.size bs) d)
    ]
  ]
]

write_section-IsBehind :
    (e : ElfMain) (i : ℕ) (d : Dest) {d' : Dest} → write_section e i d ≡ ok d' → IsBehind d d'
unfolding write_section
write_section-IsBehind e i d h = elim (Option-cases (get_elem? (array e.sect_header) i)) [
  | inl p ↦ absurd (ok_not_fault (rw (p, write_section) at h))
  | inr (s, p) ↦ elim (Bool-cases (s.sh_type == sht_symtab)) [
    | inl q ↦ write_symbols-IsBehind _ _ d (rw (p, q, write_section) at h)
    | inr q ↦ elim (Option-cases (get_elem? e.section_content i)) [
      | inl t ↦ absurd (ok_not_fault (rw (p, q, t, write_section) at h))
      | inr (c, t) ↦ write_block-IsBehind c d (rw (p, q, t, write_section) at h)
    ]
  ]
]

write_sections-IsBehind :
    (e : ElfMain) (ts : List TempTab) (d : Dest) {d' : Dest}
    → write_sections e ts d ≡ ok d'
    → IsBehind d d'
unfolding write_sections
write_sections-IsBehind e [] d h = IsBehind-refl h
write_sections-IsBehind e (t ∷ ts) d h = elim (Outcome-cases (write_section e t.indice d)) [
  | inl (d1, p) ↦
      IsBehind-trans d d1 _ (write_section-IsBehind e t.indice d p)
        (write_sections-IsBehind e ts d1 (rw (p, write_sections) at h))
  | inr (inl p) ↦ absurd (ok_not_exit (rw (p, write_sections) at h))
  | inr (inr p) ↦ absurd (ok_not_fault (rw (p, write_sections) at h))
]

pub write_section_content-IsBehind :
    (qsort : List TempTab → List TempTab) (e : ElfMain) (d : Dest) {d' : Dest}
    → write_section_content qsort e d ≡ ok d'
    → IsBehind d d'
unfolding write_section_content
write_section_content-IsBehind qsort e d h =
    elim (Outcome-cases (temp_tabs e.header.e_shnum 0 (array e.sect_header))) [
      | inl (ts, p) ↦ write_sections-IsBehind e (qsort ts) d (rw (p, write_section_content) at h)
      | inr (inl p) ↦ absurd (ok_not_exit (rw (p, write_section_content) at h))
      | inr (inr p) ↦ absurd (ok_not_fault (rw (p, write_section_content) at h))
    ]

pub write_section_header-IsBehind :
    (e : ElfMain) (d : Dest) {d' : Dest} → write_section_header e d ≡ ok d' → IsBehind d d'
unfolding write_section_header
write_section_header-IsBehind e d h =
    write_shdrs-IsBehind e.header.e_shnum (array e.sect_header) d h
