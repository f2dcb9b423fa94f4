-- ===== src/Runner/Relocated.antt =====
-- The file that the options --text and --data write, read again.
use projet_prog.Common.{ℕ, ◌≡◌, sym, ap, subst, List, ◌++◌, some, inl, inr}
use projet_prog.Stdio.{Dest, ok}
use projet_prog.Stdio.Outcomes.{Outcome-cases, ok-injective, ok_not_exit, ok_not_fault}
use projet_prog.Elf.{Shdr, ElfMain}
use projet_prog.Writer.{TempTab}
use projet_prog.Implantation.Move.{correct_sym_table}
use projet_prog.Implantation.Patch.{correct_abs_reloc}
use projet_prog.Runner.{Session, save, relocate}
use projet_prog.Runner.Coherent.{KeepsAll, IsCoherent}
use projet_prog.Runner.Reread.{ReadsBack, loaders-write_elf}
use projet_prog.Runner.Moves.{
  IsCoherent-Alike, SymbolsFit-All, correct_sym_table-Alike, correct_abs_reloc-Alike,
}

save-ReadsBack :
    (qsort : List TempTab → List TempTab) (e : ElfMain) (sects : List Shdr) (s : Session) (d : Dest)
    (rest : List ℕ) {s' : Session}
    → KeepsAll qsort
    → IsCoherent qsort e sects
    → s.dest ≡ some d
    → save qsort e s ≡ ok s'
    → (d' : Dest) × (s'.dest ≡ some d') × ReadsBack s'.elf (d'.before ++ d'.behind) rest
unfolding save
save-ReadsBack qsort e sects s d rest keeps w p h =
    let (d', run, back) = loaders-write_elf qsort e sects d rest keeps w in
    let same = ok-injective (rw (p, run, save) at h) in
    (
      d',
      sym (ap (λ x. x.dest) same),
      subst (λ x. ReadsBack x (d'.before ++ d'.behind) rest) (ap (λ x. x.elf) same) back,
    )

-- Let the parts of the structure fit together as `IsCoherent` says, qsort lose no element and a
-- destination be open. Where --text or --data succeeds, which moves symbols and stores relocations,
-- then in the file that it leaves the loaders find the structure that it leaves: the header at the
-- start, and from any position the section headers, the symbols and the contents, that of the symbol
-- table being the symbols.
pub relocate-ReadsBack :
    (qsort : List TempTab → List TempTab) (text data_addr : ℕ) (s : Session) (sects : List Shdr)
    (d : Dest) (rest : List ℕ) {s' : Session}
    → KeepsAll qsort
    → IsCoherent qsort s.elf sects
    → s.dest ≡ some d
    → relocate qsort text data_addr s ≡ ok s'
    → (d' : Dest) × (s'.dest ≡ some d') × ReadsBack s'.elf (d'.before ++ d'.behind) rest
unfolding relocate
relocate-ReadsBack qsort text data_addr s sects d rest keeps w p h =
    elim (Outcome-cases (correct_sym_table s.elf text data_addr s.source)) [
      | inr (inl q) ↦ absurd (ok_not_exit (rw (p, q, relocate) at h))
      | inr (inr q) ↦ absurd (ok_not_fault (rw (p, q, relocate) at h))
      | inl ((e, f), q) ↦
          let moved =
            IsCoherent-Alike qsort s.elf e sects
              (correct_sym_table-Alike s.elf text data_addr (SymbolsFit-All s.elf w.symbols)
                s.source e f q)
              w in
          elim (Outcome-cases (correct_abs_reloc e)) [
            | inr (inl r) ↦ absurd (ok_not_exit (rw (p, q, r, relocate) at h))
            | inr (inr r) ↦ absurd (ok_not_fault (rw (p, q, r, relocate) at h))
            | inl (e', r) ↦
                save-ReadsBack qsort e' sects (record s { source = f }) d rest keeps
                  (IsCoherent-Alike qsort e e' sects
                    (correct_abs_reloc-Alike e (SymbolsFit-All e moved.symbols) r) moved)
                  p (rw (p, q, r, relocate) at h)
          ]
    ]
