-- ===== src/Writer/Layout.antt =====
-- Sections that are written one behind the other, each at the offset of its header.
use mathlib.Core.List.{append_assoc, append-nil}
use projet_prog.Common.{
  ℕ, ◌+◌, ◌≡◌, ◌≢◌, inl, inr, refl, sym, ap, ◌∙◌, List, [], ◌∷◌, ◌++◌, none, some, arith, length,
  length-append, All, get_elem?, take-length, ◌==◌, Bool-cases, if◌then◌else◌, ge→ltb,
}
use projet_prog.Stdio.{Dest, fwrite, ok}
use projet_prog.Elf.{Shdr, Symbol, SectionContent, uninit, null, block, ElfMain, sht_symtab}
use projet_prog.Sections.{array}
use projet_prog.Symbols.RoundTrip.{symbol_bytes, write_symbols-bytes}
use projet_prog.Contents.Held.{Holds, HoldsContent, no_content, content_of, ne→==}
use projet_prog.Writer.{TempTab, symbol_rounds, write_block, write_section, write_sections}

-- What a section has in the file that is written: for the symbol table, the symbols.
unfoldable pub written : List Symbol → Shdr → SectionContent → SectionContent
written syms s c = if s.sh_type == sht_symtab then content_of (symbol_bytes syms) else c

-- From a position on, sections in this order fill the file up to another: each of them is empty, or
-- has its bytes where the one before it ends.
pub data Laid (e : ElfMain) (syms : List Symbol) : ℕ → List TempTab → ℕ → Type 0 where
  done : {pos : ℕ} → Laid e syms pos [] pos
  skip :
      {pos end : ℕ} {t : TempTab} {ts : List TempTab} (s : Shdr) (c : SectionContent)
      → get_elem? (array e.sect_header) t.indice ≡ some s
      → get_elem? e.section_content t.indice ≡ some c
      → written syms s c ≡ no_content
      → Laid e syms pos ts end
      → Laid e syms pos (t ∷ ts) end
  put :
      {pos end : ℕ} {t : TempTab} {ts : List TempTab} (s : Shdr) (c : SectionContent) (bs : List ℕ)
      → get_elem? (array e.sect_header) t.indice ≡ some s
      → get_elem? e.section_content t.indice ≡ some c
      → written syms s c ≡ content_of bs
      → length bs ≢ 0
      → s.sh_offset ≡ pos
      → Laid e syms (pos + length bs) ts end
      → Laid e syms pos (t ∷ ts) end

bytes_of : SectionContent → List ℕ
bytes_of c = elim c.section [ uninit ↦ [] | null ↦ [] | block bs ↦ bs ]

content_of-injective : (xs ys : List ℕ) → content_of xs ≡ content_of ys → xs ≡ ys
unfolding bytes_of
content_of-injective xs ys p = ap bytes_of p

content_of_not_empty : (xs : List ℕ) → content_of xs ≢ no_content
content_of_not_empty xs p = absurd (cc (ap (λ c. c.section) p))

write_block-content_of :
    (bs : List ℕ) (d : Dest) → length bs ≢ 0 → write_block (content_of bs) d ≡ ok (fwrite bs d)
unfolding write_block
write_block-content_of bs d n =
    rw (ne→== (length bs) n, ge→ltb (length bs) (length bs) (omega arith), take-length bs)

module _ (e : ElfMain) (syms : List Symbol) where
  write_section-empty :
      (i : ℕ) (s : Shdr) (c : SectionContent) (d : Dest)
      → get_elem? (array e.sect_header) i ≡ some s
      → get_elem? e.section_content i ≡ some c
      → written syms s c ≡ no_content
      → write_section e i d ≡ ok d
  unfolding write_section write_block written
  write_section-empty i s c d p q w = elim (Bool-cases (s.sh_type == sht_symtab)) [
    | inl t ↦ absurd (content_of_not_empty (symbol_bytes syms) (rw t at w))
    | inr t ↦ let same : c ≡ no_content = rw t at w in rw (p, t, q, same, write_section)
  ]

  write_section-bytes :
      (i : ℕ) (s : Shdr) (c : SectionContent) (bs : List ℕ) (d : Dest)
      → array e.sym_table ≡ syms
      → symbol_rounds e.nb_symboles ≡ length syms
      → get_elem? (array e.sect_header) i ≡ some s
      → get_elem? e.section_content i ≡ some c
      → written syms s c ≡ content_of bs
      → length bs ≢ 0
      → (d' : Dest) × (write_section e i d ≡ ok d') × (d'.before ≡ d.before ++ bs)
  unfolding write_section written fwrite
  write_section-bytes i s c bs d a n p q w nz = elim (Bool-cases (s.sh_type == sht_symtab)) [
    | inl t ↦
        let same = content_of-injective (symbol_bytes syms) bs (rw t at w) in
        let (d', e', b) = write_symbols-bytes syms d in
        (d', rw (p, t, a, n, write_section) e', rw (← same) b)
    | inr t ↦
        let same : c ≡ content_of bs = rw t at w in
        (fwrite bs d, rw (p, t, q, same, write_section) (write_block-content_of bs d nz), refl)
  ]

  -- What is written for this entry of the table stands in the file at the offset of its section.
  abbrev pub StandsAt : List ℕ → TempTab → Type 0
  StandsAt file t = elim (get_elem? (array e.sect_header) t.indice) [
    | none ↦ Unit {0}
    | some s ↦ elim (get_elem? e.section_content t.indice) [
      | none ↦ Unit {0}
      | some c ↦ HoldsContent file s (written syms s c)
    ]
  ]

  StandsAt-content :
      (file : List ℕ) (t : TempTab) (s : Shdr) (c x : SectionContent)
      → get_elem? (array e.sect_header) t.indice ≡ some s
      → get_elem? e.section_content t.indice ≡ some c
      → written syms s c ≡ x
      → HoldsContent file s x
      → StandsAt file t
  StandsAt-content file t s c x p q w h = rw (p, q, w, StandsAt) h

  -- Sections laid one behind the other are written without a fault, each at its offset, and the
  -- writing ends where they end.
  pub write_sections-Laid :
      (pos end : ℕ) (ts : List TempTab) (d : Dest)
      → array e.sym_table ≡ syms
      → symbol_rounds e.nb_symboles ≡ length syms
      → Laid e syms pos ts end
      → length d.before ≡ pos
      → (d' : Dest) × (bs : List ℕ) × (write_sections e ts d ≡ ok d')
        × (d'.before ≡ d.before ++ bs)
        × (length d'.before ≡ end)
        × All (StandsAt d'.before) ts
  unfolding write_sections Holds
  write_sections-Laid pos end [] d a n done h = (d, [], refl, sym (append-nil d.before), h, tt)
  write_sections-Laid pos end (t ∷ ts) d a n (skip s c p q w l) h =
      let (d', bs, run, b, k, all) = write_sections-Laid pos end ts d a n l h in
      (
        d',
        bs,
        rw (write_section-empty t.indice s c d p q w, write_sections) run,
        b,
        k,
        (StandsAt-content d'.before t s c no_content p q w tt, all),
      )
  write_sections-Laid pos end (t ∷ ts) d a n (put s c bs p q w nz o l) h =
      let (d1, one, b1) = write_section-bytes t.indice s c bs d a n p q w nz in
      let h1 : length d1.before ≡ pos + length bs =
        ap length b1 ∙ omega (arith, length-append d.before bs) in
      let (d', more, run, b, k, all) = write_sections-Laid (pos + length bs) end ts d1 a n l h1 in
      let whole : d'.before ≡ d.before ++ (bs ++ more) =
        b ∙ ap (λ x. x ++ more) b1 ∙ append_assoc d.before bs more in
      (
        d',
        bs ++ more,
        rw (one, write_sections) run,
        whole,
        k,
        (
          StandsAt-content d'.before t s c (content_of bs) p q w (d.before, more, whole, o ∙ sym h),
          all,
        ),
      )
