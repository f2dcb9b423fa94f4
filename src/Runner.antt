-- ===== src/Runner.antt =====
-- `main` of ARM_runner.c: the file is loaded, then the options are carried out in order. What
-- getopt_long makes of the command line is a list of options; atoi and strtol have been applied.
pub mod Alike
pub mod Coherent
pub mod Freed
pub mod Moves
pub mod Relocated
pub mod Reread
pub mod Saved
pub mod Shown
pub mod Start
use projet_prog.Common.{ℕ, zero, suc, Option, none, some, List, [], ◌∷◌, ◌++◌}
use projet_prog.Stdio.{M, Stream, Dest, pure, ◌>>=◌, Outcome, ok, exit, fault}
use projet_prog.Elf.{ElfMain, uninit, null, block, SectionContent}
use projet_prog.Header.{load_header, write_header}
use projet_prog.Sections.{load_tab_section_header, write_section_header, array}
use projet_prog.Symbols.{load_sym_table}
use projet_prog.Relocs.{load_reloc_table}
use projet_prog.Contents.{load_section_content}
use projet_prog.Implantation.Delete.{delete_rel}
use projet_prog.Implantation.Move.{correct_sym_table}
use projet_prog.Implantation.Patch.{correct_abs_reloc}
use projet_prog.Writer.{TempTab, write_section_content}
use projet_prog.Display.Item.{Item, text}
use projet_prog.Display.Header.{print_header}
use projet_prog.Display.Sections.{print_section_header}
use projet_prog.Display.Symbols.{print_sym_table}
use projet_prog.Display.Relocs.{print_reloc_table}
use projet_prog.Display.Contents.{print_contents, print_content_one}

-- The calls of `main` that fill the structure.
unfoldable pub load_main : M ElfMain
load_main = do
  header ← load_header
  sects ← load_tab_section_header header
  syms ← load_sym_table header (array sects)
  rels ← load_reloc_table header (array sects)
  contents ← load_section_content header (array sects)
  pure (record {
    header = header;
    sect_header = sects;
    sym_table = syms.0;
    rel_table = rels.0;
    section_content = contents;
    tab_sec_rel = rels.1;
    nb_symboles = syms.1;
  })

-- The options: -h -S -s -r -x -j -a -w -d --text --data, --source and --dest, and any other.
-- `none` stands for a negative number behind -x.
pub data Command : Type 0 where
  show_header show_sections show_symbols show_relocs show_contents show_all : Command
  show_content : Option ℕ → Command
  copy delete named unknown : Command
  move_text move_data : ℕ → Command

-- The variables of `main`: the structure, the two files, and what was printed.
pub record Session : Type 0 where
  pub elf : ElfMain
  pub source : Stream
  pub dest : Option Dest
  pub printed : List Item

-- `writeHeader`, `writeSectionContent`, `writeSectionHeader`.
unfoldable pub write_elf : (List TempTab → List TempTab) → ElfMain → Dest → Outcome Dest
write_elf qsort e d = elim (write_section_content qsort e (write_header e.header d)) [
  | ok d' ↦ write_section_header e d'
  | exit ↦ exit
  | fault ↦ fault
]

-- The structure is written to the destination, without which the program exits.
unfoldable pub save : (List TempTab → List TempTab) → ElfMain → Session → Outcome Session
save qsort e s = elim s.dest [
  | none ↦ exit
  | some d ↦ elim (write_elf qsort e d) [
    | ok d' ↦ ok (record s { elf = e; dest = some d' })
    | exit ↦ exit
    | fault ↦ fault
  ]
]

-- Printing by a function that reads names from the source.
unfoldable pub show_from : M (List Item) → Session → Outcome Session
show_from m s = elim (m s.source) [
  | ok (items, f) ↦ ok (record s { source = f; printed = s.printed ++ items })
  | exit ↦ exit
  | fault ↦ fault
]

unfoldable pub show_items : Outcome (List Item) → Session → Outcome Session
show_items o s = elim o [
  | ok items ↦ ok (record s { printed = s.printed ++ items })
  | exit ↦ exit
  | fault ↦ fault
]

unfoldable pub print_all : ElfMain → M (List Item)
print_all e = do
  sections ← print_section_header e.header (array e.sect_header)
  symbols ← print_sym_table e.header (array e.sect_header) e.sym_table e.nb_symboles
  relocs ←
      print_reloc_table e.header (array e.sect_header) (array e.sym_table) e.rel_table e.tab_sec_rel
  pure (
      print_header e.header
      ++ ((text "\n" ∷ [])
          ++ (sections
              ++ ((text "\n" ∷ [])
                  ++ (symbols ++ ((text "\n" ∷ []) ++ (relocs ++ (text "\n" ∷ []))))))))

-- --text and --data: the symbols are moved, the relocations made, and the structure written.
unfoldable pub relocate : (List TempTab → List TempTab) → ℕ → ℕ → Session → Outcome Session
relocate qsort text_addr data_addr s = elim s.dest [
  | none ↦ exit
  | some _ ↦ elim (correct_sym_table s.elf text_addr data_addr s.source) [
    | exit ↦ exit
    | fault ↦ fault
    | ok (e, f) ↦ elim (correct_abs_reloc e) [
      | ok e' ↦ save qsort e' (record s { source = f })
      | exit ↦ exit
      | fault ↦ fault
    ]
  ]
]

unfoldable pub delete_and_save : (List TempTab → List TempTab) → Session → Outcome Session
delete_and_save qsort s = elim s.dest [
  | none ↦ exit
  | some _ ↦ elim (delete_rel s.elf) [ ok e ↦ save qsort e s | exit ↦ exit | fault ↦ fault ]
]

-- The `switch` over an option.
unfoldable pub run_command : (List TempTab → List TempTab) → Command → Session → Outcome Session
run_command qsort show_header s = show_items (ok (print_header s.elf.header)) s
run_command qsort show_sections s =
    show_from (print_section_header s.elf.header (array s.elf.sect_header)) s
run_command qsort show_symbols s =
    show_from
      (print_sym_table s.elf.header (array s.elf.sect_header) s.elf.sym_table s.elf.nb_symboles) s
run_command qsort show_relocs s =
    show_from
      (print_reloc_table s.elf.header (array s.elf.sect_header) (array s.elf.sym_table)
        s.elf.rel_table s.elf.tab_sec_rel)
      s
run_command qsort show_contents s =
    show_items
      (print_contents s.elf.header.e_shnum 0 (array s.elf.sect_header) s.elf.section_content) s
run_command qsort show_all s = show_from (print_all s.elf) s
run_command qsort (show_content none) s = fault
run_command qsort (show_content (some i)) s =
    show_items
      (print_content_one s.elf.header.e_shnum (array s.elf.sect_header) s.elf.section_content i) s
run_command qsort copy s = save qsort s.elf s
run_command qsort delete s = delete_and_save qsort s
run_command qsort named s = ok s
run_command qsort unknown s = exit
run_command qsort (move_text a) s = relocate qsort a 0 s
run_command qsort (move_data a) s = relocate qsort 0 a s

-- The loop over the options.
unfoldable pub run_commands :
    (List TempTab → List TempTab) → List Command → Session → Outcome Session
run_commands qsort [] s = ok s
run_commands qsort (c ∷ cs) s = elim (run_command qsort c s) [
  | ok s' ↦ run_commands qsort cs s'
  | exit ↦ exit
  | fault ↦ fault
]

-- The loop that frees the contents of the `n` sections left.
unfoldable pub free_contents : ℕ → List SectionContent → Outcome (Unit {0})
free_contents zero l = ok tt
free_contents (suc n) [] = fault
free_contents (suc n) (c ∷ l) = elim c.section [
  | uninit ↦ fault
  | null ↦ free_contents n l
  | block _ ↦ free_contents n l
]

-- The whole program, from the two open files: what is printed, and what the destination holds.
unfoldable pub main :
    (List TempTab → List TempTab)
    → List Command
    → Stream
    → Option Dest
    → Outcome (List Item × Option Dest)
main qsort commands source dest = elim (load_main source) [
  | exit ↦ exit
  | fault ↦ fault
  | ok (e, f) ↦
      elim (run_commands qsort commands
        (record { elf = e; source = f; dest = dest; printed = [] })) [
          | exit ↦ exit
          | fault ↦ fault
          | ok s ↦ elim (free_contents s.elf.header.e_shnum s.elf.section_content) [
            | ok _ ↦ ok (s.printed, s.dest)
            | exit ↦ exit
            | fault ↦ fault
          ]
        ]
]
