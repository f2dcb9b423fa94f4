-- ===== src/Examples/Relocated.antt =====
-- The theorems on one relocation and on the file that --text writes, at small structures.
use projet_prog.Common.{inr, arith, ◌≡◌, ◌++◌, refl, [], ◌∷◌, some}
use projet_prog.Common.Words.{add32, bswap_16, bswap_32, le_bytes16, le_bytes32, put16, put32}
use projet_prog.Stdio.{Dest, ok, exit, fault, fseek_int, fwrite, rewind, write_chunks}
use projet_prog.Elf.{Rel, Shdr, Symbol, block}
use projet_prog.Implantation.Patch.Bytes.{apply_rel-set}
use projet_prog.Header.{write_header, ident_chunks, field_chunks, addr_bytes}
use projet_prog.Sections.{shdr_words, write_shdrs, write_section_header}
use projet_prog.Writer.{
  symbol_chunks, temp_tabs, write_symbols, write_block, write_section, write_sections,
  write_section_content,
}
use projet_prog.Names.{scan_char, name_loop, print_name}
use projet_prog.Implantation.Move.{
  same_name, move_symbol, correct_symbol, correct_symbols, correct_sym_table,
}
use projet_prog.Implantation.Patch.{
  sign_extend, sign_extend16, sign_extend8, store_byte, patch, apply_rel, apply_rels, apply_tables,
  correct_abs_reloc,
}
use projet_prog.Runner.{Session, save, relocate, write_elf}
use projet_prog.Runner.Reread.{ReadsBack}
use projet_prog.Runner.Relocated.{relocate-ReadsBack}
use projet_prog.Examples.Saved.{sort, rows, program, sort-KeepsAll, program-IsCoherent}

-- The name of the section of the symbol is ".text".
abbrev session : Session
session = record {
  elf = program;
  source = record { bytes = b'.' ∷ b't' ∷ b'e' ∷ b'x' ∷ b't' ∷ 0 ∷ []; rest = [] };
  dest = some (record { before = []; behind = 7 ∷ [] });
  printed = [];
}

abbrev after : Session
after = elim (relocate sort 16 0 session) [ ok s ↦ s | exit ↦ session | fault ↦ session ]

relocates : relocate sort 16 0 session ≡ ok after
unfolding relocate correct_sym_table correct_symbols correct_symbol print_name fseek_int add32
    scan_char name_loop same_name move_symbol correct_abs_reloc apply_tables apply_rels apply_rel
    patch sign_extend sign_extend16 sign_extend8 store_byte save write_elf write_section_content
    temp_tabs write_sections write_section write_block write_symbols symbol_chunks bswap_16 bswap_32
    le_bytes16 le_bytes32 put16 put32 addr_bytes field_chunks ident_chunks write_header shdr_words
    write_section_header write_shdrs fwrite rewind write_chunks
relocates = refl

relocate-ReadsBack_example :
    (d' : Dest) × (after.dest ≡ some d') × ReadsBack after.elf (d'.before ++ d'.behind) []
relocate-ReadsBack_example =
    relocate-ReadsBack sort 16 0 session rows (record { before = []; behind = 7 ∷ [] }) []
      sort-KeepsAll program-IsCoherent refl relocates

abbrev place : Rel
place = record { r_offset = 1; r_info = 8 }

abbrev value : Symbol
value = record { st_name = 0; st_value = 300; st_size = 0; st_info = 0; st_other = 0; st_shndx = 0 }

abbrev owner : Shdr
owner = record {
  sh_name = 0;
  sh_type = 1;
  sh_flags = 0;
  sh_addr = 200;
  sh_offset = 0;
  sh_size = 3;
  sh_link = 0;
  sh_info = 0;
  sh_addralign = 0;
  sh_entsize = 0;
}

-- 300 + 200 + 1 is 501, of which the lowest byte is 245.
apply_rel-set_example :
    apply_rel
      (owner ∷ [])
      (value ∷ [])
      place
      (record { section = block (7 ∷ 8 ∷ 9 ∷ []); size = 3 } ∷ [])
    ≡ ok (record { section = block (7 ∷ 245 ∷ 9 ∷ []); size = 3 } ∷ [])
apply_rel-set_example =
    apply_rel-set (owner ∷ []) (value ∷ []) place
      (record { section = block (7 ∷ 8 ∷ 9 ∷ []); size = 3 } ∷ []) value owner (7 ∷ 8 ∷ 9 ∷ []) 3
      refl refl refl (inr refl) (omega arith)
