-- ===== src/Implantation/Delete/Left.antt =====
-- What is left of a structure when one relocation section is removed.
use projet_prog.Common.{
  ℕ, zero, suc, ◌+◌, ◌-◌, ◌^◌, ◌<◌, ◌≤◌, ◌≡◌, refl, sym, ap, ◌∙◌, List, [], ◌∷◌, Option, none, some,
  arith, length, get_elem?, ◌==◌, true,
}
use projet_prog.Stdio.{ok}
use projet_prog.Elf.{Shdr, Symbol, SectionContent, ElfMain, sht_rel}
use projet_prog.Sections.{array}
use projet_prog.Implantation.Delete.{
  removed, delete_section, shift_down, map_first, renumber, renumber_symbol, rounds,
}
use projet_prog.Implantation.Delete.Shift.{
  IsLoaded, freed, length-shift_down, length-freed, Between-shift_down, freed-AreLoaded,
  delete_content-shift_down,
}
use projet_prog.Implantation.Delete.Rows.{
  core, is_rel, rows, erase, keep_from, keep_from-erase, length-rows, get_elem?-rows,
  rows-shift_down, rows-map_first, rows-freed,
}
use projet_prog.Implantation.Delete.Kept.{
  IsReadyFrom, all_rows, SameRow, SameRows, Kept, names_follow, symbols_follow,
}

pub length-map_first {ℓ} :
    {A : Type ℓ} (f : A → A) (n : ℕ) (l : List A) → length (map_first f n l) ≡ length l
unfolding map_first
length-map_first f zero l = refl
length-map_first f (suc n) [] = refl
length-map_first f (suc n) (x ∷ l) = ap suc (length-map_first f n l)

-- The symbols when each is renumbered, in a structure with a table of them or without.
symbols_of :
    (i n : ℕ) (o : Option (List Symbol))
    → array (elim o [ none ↦ none | some l ↦ some (map_first (renumber_symbol i) n l) ])
      ≡ map_first (renumber_symbol i) n (array o)
unfolding map_first
symbols_of i zero none = refl
symbols_of i (suc n) none = refl
symbols_of i n (some l) = refl

module _ (f i : ℕ) (s : Shdr) (e : ElfMain) (w : IsReadyFrom f e) (behind : f ≤ i)
    (inside : i < e.header.e_shnum) where
  open w use {sects}

  -- The contents when section `i` is removed.
  contents_left : List SectionContent
  contents_left =
      freed (e.header.e_shnum - 1) (shift_down (e.header.e_shnum - suc i) i e.section_content)

  -- What is left of the structure when section `i` is removed.
  pub left : ElfMain
  unfolding contents_left
  left = removed i s contents_left e

  pub delete_section-left : delete_section i s e ≡ ok left
  unfolding delete_section left
  delete_section-left = rw (
    delete_content-shift_down f e.header.e_shnum i e.section_content w.read behind inside
        w.enough_contents,
    delete_section,
  )

  sects_fit : e.header.e_shnum ≤ length (array e.sect_header)
  sects_fit = rw w.has_sects w.enough_sects

  symbols_left :
      array left.sym_table
      ≡ map_first (renumber_symbol i) (length (array e.sym_table)) (array e.sym_table)
  unfolding left removed
  symbols_left =
      symbols_of i (rounds e.nb_symboles) e.sym_table
      ∙ ap (λ n. map_first (renumber_symbol i) n (array e.sym_table)) w.counted

  pub left-IsReadyFrom : IsReadyFrom f left
  unfolding left removed
  left-IsReadyFrom = record {
    sects =
        map_first (renumber i s.sh_size s.sh_offset) e.header.e_shnum
          (shift_down (e.header.e_shnum - suc i) i (array e.sect_header));
    has_sects = refl;
    counted =
        w.counted
        ∙ sym (
            ap length symbols_left
            ∙ length-map_first (renumber_symbol i) (length (array e.sym_table))
                (array e.sym_table));
    few = omega (arith, w.few);
    enough_sects = omega (
      arith,
      sects_fit,
      length-map_first (renumber i s.sh_size s.sh_offset) e.header.e_shnum
          (shift_down (e.header.e_shnum - suc i) i (array e.sect_header)),
      length-shift_down (e.header.e_shnum - suc i) i (array e.sect_header),
    );
    enough_contents = omega (
      arith,
      w.enough_contents,
      length-freed (e.header.e_shnum - 1)
          (shift_down (e.header.e_shnum - suc i) i e.section_content),
      length-shift_down (e.header.e_shnum - suc i) i e.section_content,
    );
    read = freed-AreLoaded f e.header.e_shnum _ (
        Between-shift_down IsLoaded f e.header.e_shnum (e.header.e_shnum - suc i) i
          e.section_content behind (omega arith) w.read);
  }

  all_rows-left : all_rows left ≡ erase i (all_rows e)
  unfolding left removed
  all_rows-left =
      let r = e.header.e_shnum - suc i in
      let before : e.header.e_shnum - 1 ≡ i + r = omega arith in
      let whole : e.header.e_shnum ≡ suc (i + r) = omega arith in
      rows-map_first i s.sh_size s.sh_offset e.header.e_shnum (e.header.e_shnum - 1)
        (shift_down r i (array e.sect_header)) contents_left
      ∙ rows-freed (e.header.e_shnum - 1) (e.header.e_shnum - 1)
          (shift_down r i (array e.sect_header)) (shift_down r i e.section_content) (omega arith)
      ∙ (ap (λ k. rows k (shift_down r i (array e.sect_header)) (shift_down r i e.section_content))
            before
          ∙ (rows-shift_down i r (array e.sect_header) e.section_content (omega (arith, sects_fit))
                (omega (arith, w.enough_contents))
              ∙ ap (λ k. erase i (rows k (array e.sect_header) e.section_content)) (sym whole)))

  pub left_round : (fuel : ℕ) → e.header.e_shnum ≤ i + suc fuel → left.header.e_shnum ≤ i + fuel
  unfolding left removed
  left_round fuel h = omega arith

  module _ (here : get_elem? (array e.sect_header) i ≡ some s)
      (rel : (s.sh_type == sht_rel) ≡ true) where
    row_here : (c : SectionContent) × (get_elem? (all_rows e) i ≡ some (core s, c))
    row_here =
        get_elem?-rows e.header.e_shnum i (array e.sect_header) e.section_content inside
          w.enough_contents here

    rows_few : length (all_rows e) < 2 ^ 16
    rows_few = omega (
      arith,
      w.few,
      length-rows e.header.e_shnum (array e.sect_header) e.section_content sects_fit
          w.enough_contents,
    )

    core_rel : (c : SectionContent) → is_rel (core s, c) ≡ true
    unfolding core
    core_rel c = rel

    left_names :
        SameRow (all_rows e) (erase i (all_rows e)) e.header.e_shstrndx left.header.e_shstrndx
    unfolding left removed
    left_names =
        let (c, at_i) = row_here in
        names_follow (all_rows e) i at_i (core_rel c) rows_few e.header.e_shstrndx

    left_symbols :
        SameRows (all_rows e) (erase i (all_rows e)) (array e.sym_table) (array left.sym_table)
    left_symbols =
        let (c, at_i) = row_here in
        rw symbols_left
          (symbols_follow (all_rows e) i at_i (core_rel c) rows_few (array e.sym_table))

    pub left-Kept : Kept e left
    left-Kept = record {
      names = rw all_rows-left left_names;
      symbols = rw all_rows-left left_symbols;
    }

    pub keep_from-left : keep_from i (all_rows left) ≡ keep_from i (all_rows e)
    keep_from-left =
        let (c, at_i) = row_here in
        ap (keep_from i) all_rows-left ∙ keep_from-erase i (all_rows e) at_i (core_rel c)
