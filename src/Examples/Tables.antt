-- ===== src/Examples/Tables.antt =====
-- The theorems on section headers, symbols, names, offsets and what is shown, at concrete tables.
use projet_prog.Common.{◌≡◌, refl, [], ◌∷◌, ◌++◌, none, some, arith, take}
use projet_prog.Stdio.{Stream, Dest, ok}
use projet_prog.Elf.{Shdr, Symbol, block, ElfMain}
use projet_prog.Sections.{shdr_words, write_section_header, load_tab_section_header}
use projet_prog.Sections.RoundTrip.{IsShdr, load_tab_section_header-write_section_header}
use projet_prog.Symbols.{load_table}
use projet_prog.Symbols.RoundTrip.{IsSymbol, load_table-write_symbols}
use projet_prog.Writer.{write_symbols}
use projet_prog.Names.{print_name}
use projet_prog.Names.Cut.{c_string, print_name-c_string}
use projet_prog.Examples.Files.{header, old}

abbrev section : Shdr
section = record {
  sh_name = 1;
  sh_type = 1;
  sh_flags = 6;
  sh_addr = 0;
  sh_offset = 52;
  sh_size = 4;
  sh_link = 0;
  sh_info = 0;
  sh_addralign = 4;
  sh_entsize = 0;
}

abbrev program : ElfMain
program = record {
  header = header 1 2 1;
  sect_header = some (section ∷ []);
  sym_table = none;
  rel_table = none;
  section_content = record { section = block (1 ∷ 2 ∷ 3 ∷ 4 ∷ []); size = 4 } ∷ [];
  tab_sec_rel = record { tab_nb = []; nb_sections = 0 };
  nb_symboles = none;
}

section-IsShdr : IsShdr section
unfolding IsShdr shdr_words
section-IsShdr = ground arith

load_tab_section_header-write_section_header_example :
    (d' : Dest) × (write_section_header program old ≡ ok d')
    × (load_tab_section_header (header 1 2 1) (record { bytes = d'.before ++ (8 ∷ []); rest = [] })
        ≡ ok (some (section ∷ []), record { bytes = d'.before ++ (8 ∷ []); rest = 8 ∷ [] }))
load_tab_section_header-write_section_header_example =
    load_tab_section_header-write_section_header program (section ∷ []) old (8 ∷ []) [] refl refl
      (omega arith) (section-IsShdr, tt) refl refl

abbrev symbol : Symbol
symbol = record { st_name = 5; st_value = 8; st_size = 4; st_info = 18; st_other = 0; st_shndx = 1 }

symbol-IsSymbol : IsSymbol symbol
symbol-IsSymbol = record {
  name = omega arith;
  value = omega arith;
  size = omega arith;
  shndx = omega arith;
}

abbrev symbols_section : Shdr
symbols_section = record section { sh_type = 2; sh_offset = 2; sh_size = 16 }

load_table-write_symbols_example :
    (d' : Dest) × (write_symbols 1 (symbol ∷ []) old ≡ ok d')
    × (load_table (some symbols_section) (record { bytes = d'.before ++ (8 ∷ []); rest = [] })
        ≡ ok
            ((some (symbol ∷ []), some 1), record { bytes = d'.before ++ (8 ∷ []); rest = 8 ∷ [] }))
load_table-write_symbols_example =
    load_table-write_symbols symbols_section (symbol ∷ []) old (8 ∷ []) [] (symbol-IsSymbol, tt)
      refl refl (omega arith)

abbrev strings : Stream
strings = record { bytes = 0 ∷ b'.' ∷ b't' ∷ 0 ∷ b'x' ∷ []; rest = [] }

print_name-c_string_example :
    (f' : Stream) × (print_name 1 strings
      ≡ ok (take 17 (c_string (b'.' ∷ b't' ∷ 0 ∷ b'x' ∷ [])), f'))
    × (f'.bytes ≡ strings.bytes)
print_name-c_string_example = print_name-c_string 1 strings (omega arith)
