-- ===== src/Runner/Freed.antt =====
-- What `main` frees at its end.
use mathlib.Core.Option.{some-injective}
use projet_prog.Common.{
  ℕ, zero, suc, ◌<◌, ◌≡◌, ◌≢◌, inl, inr, ap, subst, Option, List, [], ◌∷◌, some, arith, get_elem?,
  All,
}
use projet_prog.Stdio.{Stream, Dest, ok}
use projet_prog.Stdio.Gives.{Gives, bind-Gives, any_Gives, pure-Gives}
use projet_prog.Stdio.Outcomes.{Outcome-cases, ok_not_exit, ok_not_fault}
use projet_prog.Elf.{Shdr, SectionContent, uninit, ElfMain, Buffer-cases}
use projet_prog.Header.{load_header}
use projet_prog.Sections.{array, load_tab_section_header}
use projet_prog.Symbols.{load_sym_table}
use projet_prog.Relocs.{load_reloc_table}
use projet_prog.Contents.{load_section_content}
use projet_prog.Contents.Empty.{AreUnset, unset, load_section_content-Gives}
use projet_prog.Writer.{TempTab}
use projet_prog.Display.Item.{Item}
use projet_prog.Runner.{load_main, Command, Session, run_commands, free_contents, main}
use projet_prog.Runner.Shown.{IsShow, SameFiles, run_commands-SameFiles}

-- The contents of the empty sections of a loaded program were never set.
load_main-AreUnset :
    Gives load_main (λ e. AreUnset e.header.e_shnum (array e.sect_header) e.section_content)
unfolding load_main
load_main-AreUnset = any_Gives load_header _ λ header.
    any_Gives (load_tab_section_header header) _ λ sects.
      any_Gives (load_sym_table header (array sects)) _ λ syms.
        any_Gives (load_reloc_table header (array sects)) _ λ rels.
          bind-Gives (load_section_content header (array sects)) _
            (load_section_content-Gives header (array sects))
            λ contents p.
              pure-Gives (λ e. AreUnset e.header.e_shnum (array e.sect_header) e.section_content) _
                p

free_contents-unset :
    (n i : ℕ) (l : List SectionContent)
    → i < n
    → get_elem? l i ≡ some unset
    → free_contents n l ≢ ok tt
unfolding free_contents
free_contents-unset zero i l b g e = absurd (omega arith)
free_contents-unset (suc n) i [] b g e = absurd cc
free_contents-unset (suc n) zero (c ∷ l) b g e =
    let q : c.section ≡ uninit = ap (λ x. x.section) (some-injective c unset g) in
    ok_not_fault (rw (q, free_contents) at e)
free_contents-unset (suc n) (suc i) (c ∷ l) b g e = elim (Buffer-cases c.section) [
  | inl q ↦ ok_not_fault (rw (q, free_contents) at e)
  | inr (inl q) ↦ free_contents-unset n i l (omega arith) g (rw (q, free_contents) at e)
  | inr (inr (bs, q)) ↦ free_contents-unset n i l (omega arith) g (rw (q, free_contents) at e)
]

-- Of a file that loads and has a section of size 0 among the first e_shnum, as the first section of
-- an ELF file is, no run of options that only print, with a destination or without, ends without a
-- fault or an exit: `main` frees a pointer that was never set.
pub main_empty_section :
    (qsort : List TempTab → List TempTab) (cs : List Command) (source : Stream) (dest : Option Dest)
    (i : ℕ) (s : Shdr) {e : ElfMain} {f : Stream}
    → All IsShow cs
    → load_main source ≡ ok (e, f)
    → i < e.header.e_shnum
    → get_elem? (array e.sect_header) i ≡ some s
    → s.sh_size ≡ 0
    → (r : List Item × Option Dest) → main qsort cs source dest ≢ ok r
unfolding main SameFiles AreUnset
main_empty_section qsort cs source dest i s {e} {f} w p b g z r h =
    let start : Session = record { elf = e; source = f; dest = dest; printed = [] } in
    elim (Outcome-cases (run_commands qsort cs start)) [
      | inl (s', q) ↦
          let (a, _) = run_commands-SameFiles qsort cs start w q in
          elim (Outcome-cases (free_contents s'.elf.header.e_shnum s'.elf.section_content)) [
            | inl (u, t) ↦
                free_contents-unset e.header.e_shnum i e.section_content b
                  (load_main-AreUnset source e f p i s b g z)
                  (subst (λ x. free_contents x.header.e_shnum x.section_content ≡ ok tt) a t)
            | inr (inl t) ↦ ok_not_exit (rw (p, q, t, main) at h)
            | inr (inr t) ↦ ok_not_fault (rw (p, q, t, main) at h)
          ]
      | inr (inl q) ↦ ok_not_exit (rw (p, q, main) at h)
      | inr (inr q) ↦ ok_not_fault (rw (p, q, main) at h)
    ]
