-- ===== src/Runner/Reread.antt =====
-- The whole file that `write_elf` leaves, read again by the functions that load it.
use mathlib.Core.List.{append_assoc}
use projet_prog.Common.{ℕ, ◌≡◌, sym, ap, ◌∙◌, subst, List, ◌++◌, none, some, length}
use projet_prog.Stdio.{Stream, Dest, ok, at, ◌>>=◌}
use projet_prog.Elf.{Shdr, ElfMain}
use projet_prog.Header.{load_header, write_header}
use projet_prog.Header.RoundTrip.{load_header-write_header}
use projet_prog.Sections.{array, load_tab_section_header, write_shdrs, write_section_header}
use projet_prog.Sections.RoundTrip.{shdr_bytes, write_shdrs-bytes, load_tab_section_header-bytes}
use projet_prog.Symbols.{find_symtab, load_table, load_sym_table}
use projet_prog.Symbols.RoundTrip.{load_table-bytes}
use projet_prog.Contents.{load_section_content}
use projet_prog.Contents.Held.{Holds, Held, Held-append, load_section_content-Held}
use projet_prog.Writer.{TempTab, write_section_content}
use projet_prog.Writer.Tabs.{written_all, find_symtab-Holds}
use projet_prog.Runner.{write_elf}
use projet_prog.Runner.Coherent.{
  KeepsAll, SymbolsFit, no_table, table, saved_contents, IsCoherent, contents_stand,
}

load_sym_table-fit :
    (e : ElfMain) (sects : List Shdr) (f : Stream)
    → e.sect_header ≡ some sects
    → length e.section_content ≡ length sects
    → SymbolsFit e
    → Held f.bytes sects (saved_contents e)
    → (r : List ℕ) × (load_sym_table e.header sects f ≡ ok ((e.sym_table, e.nb_symboles), at f r))
unfolding load_sym_table load_table Holds
load_sym_table-fit e sects f t m (no_table p q n) w =
    let p' : find_symtab e.header.e_shnum sects ≡ ok none = rw t at p in
    (f.rest, rw (p', q, n, ◌>>=◌))
load_sym_table-fit e sects f t m (table s l p q n z small fits) w =
    let p' : find_symtab e.header.e_shnum sects ≡ ok (some s) = rw t at p in
    let held : Held f.bytes sects (written_all l sects e.section_content) = rw (t, q) at w in
    let (front, back, b, o) = find_symtab-Holds l f.bytes _ sects e.section_content s m held p' in
    (back, rw (p', q, n, ◌>>=◌) (load_table-bytes s l f front back fits o z small b))

-- From a file, at any position but for the header, the loaders return these parts of a structure.
pub record ReadsBack (e : ElfMain) (file rest : List ℕ) : Type 0 where
  pub header :
      (r : List ℕ) × (load_header (record { bytes = file; rest = file })
        ≡ ok (e.header, record { bytes = file; rest = r }))
  pub sections :
      (r : List ℕ) × (load_tab_section_header e.header (record { bytes = file; rest = rest })
        ≡ ok (e.sect_header, record { bytes = file; rest = r }))
  pub symbols :
      (r : List ℕ) × (load_sym_table e.header
          (array e.sect_header)
          (record { bytes = file; rest = rest })
        ≡ ok ((e.sym_table, e.nb_symboles), record { bytes = file; rest = r }))
  pub contents :
      (r : List ℕ) × (load_section_content e.header
          (array e.sect_header)
          (record { bytes = file; rest = rest })
        ≡ ok (saved_contents e, record { bytes = file; rest = r }))

written_elf :
    (qsort : List TempTab → List TempTab) (e : ElfMain) (sects : List Shdr) (d : Dest)
    {d1 d' : Dest}
    → write_section_content qsort e (write_header e.header d) ≡ ok d1
    → e.sect_header ≡ some sects
    → e.header.e_shnum ≡ length sects
    → write_shdrs (length sects) sects d1 ≡ ok d'
    → write_elf qsort e d ≡ ok d'
unfolding write_elf write_section_header
written_elf qsort e sects d run t n shdrs = rw (run, t, n, write_elf) shdrs

reads_back :
    (qsort : List TempTab → List TempTab) (e : ElfMain) (sects : List Shdr) (d d1 : Dest)
    (file bs behind rest : List ℕ)
    → IsCoherent qsort e sects
    → d1.before ≡ (write_header e.header d).before ++ bs
    → e.header.e_shoff ≡ length d1.before
    → Held d1.before sects (saved_contents e)
    → file ≡ d1.before ++ (shdr_bytes sects ++ behind)
    → ReadsBack e file rest
reads_back qsort e sects d d1 file bs behind rest w b k held split =
    let f : Stream = record { bytes = file; rest = rest } in
    let held' : Held file sects (saved_contents e) =
      subst (λ x. Held x sects (saved_contents e)) (sym split)
        (Held-append d1.before (shdr_bytes sects ++ behind) sects (saved_contents e) held) in
    let front : file ≡ (write_header e.header d).before ++ (bs ++ (shdr_bytes sects ++ behind)) =
      split
      ∙ ap (λ x. x ++ (shdr_bytes sects ++ behind)) b
      ∙ append_assoc (write_header e.header d).before bs (shdr_bytes sects ++ behind) in
    record {
      header = (
        bs ++ (shdr_bytes sects ++ behind),
        ap (λ x. load_header (record { bytes = file; rest = x })) front
            ∙ load_header-write_header e.header d f (bs ++ (shdr_bytes sects ++ behind)) w.ehdr,
      );
      sections = (
        behind,
        rw w.table (
            load_tab_section_header-bytes e.header sects f d1.before behind w.count w.ehdr.shnum
              w.rows w.row_size k split),
      );
      symbols = rw w.table (load_sym_table-fit e sects f w.table w.contents w.symbols held');
      contents =
          subst
            (λ l.
              (r : List ℕ) × (load_section_content e.header l f ≡ ok (saved_contents e, at f r)))
            (sym (ap array w.table))
            (load_section_content-Held e.header sects (saved_contents e) f w.sized held');
    }

-- Let the parts of the structure fit together: fields, counts and symbols, the sections one behind
-- the other between the header and the section headers in the order that qsort finds, each of the
-- size that the loader finds out; and let qsort lose no element. Then `write_elf` succeeds, whatever
-- the destination held, and in the file that it leaves `load_header` finds the header at the start,
-- and from any position `load_tab_section_header` finds the section headers, `load_sym_table` the
-- symbols and their number, and `load_section_content` the contents, that of the symbol table being
-- the symbols written.
pub loaders-write_elf :
    (qsort : List TempTab → List TempTab) (e : ElfMain) (sects : List Shdr) (d : Dest)
    (rest : List ℕ)
    → KeepsAll qsort
    → IsCoherent qsort e sects
    → (d' : Dest) × (write_elf qsort e d ≡ ok d') × ReadsBack e (d'.before ++ d'.behind) rest
loaders-write_elf qsort e sects d rest keeps w =
    let (d1, bs, run, b1, k1, held) = contents_stand qsort e sects d keeps w in
    let (d', shdrs, b') = write_shdrs-bytes sects d1 in
    let file : List ℕ = d'.before ++ d'.behind in
    let split : file ≡ d1.before ++ (shdr_bytes sects ++ d'.behind) =
      ap (λ x. x ++ d'.behind) b' ∙ append_assoc d1.before (shdr_bytes sects) d'.behind in
    (
      d',
      written_elf qsort e sects d run w.table w.count shdrs,
      reads_back qsort e sects d d1 file bs d'.behind rest w b1 k1 held split,
    )
