-- ===== src/Display/Sections.antt =====
-- `printSectionHeader` of Functions/readSectionHeader.c.
use projet_prog.Common.{ℕ, zero, suc, List, [], ◌∷◌, ◌++◌, ◌==◌, if◌then◌else◌, get_elem?, bit_and}
use projet_prog.Common.Words.{add32}
use projet_prog.Stdio.{M, ◌>>=◌, pure}
use projet_prog.Elf.{Ehdr, Shdr}
use projet_prog.Names.{print_name}
use projet_prog.Display.Item.{Item, text, dec, hex, chars, at_index}

-- The `switch` over the type of a section.
unfoldable pub section_type : ℕ → List Item
section_type x =
    if x == 0
    then text "NULL\t" ∷ []
    else if x == 1
    then text "PROGBITS\t" ∷ []
    else if x == 2
    then text "SYMTAB\t" ∷ []
    else if x == 3
    then text "STRTAB\t" ∷ []
    else if x == 4
    then text "RELA\t" ∷ []
    else if x == 5
    then text "HASH\t" ∷ []
    else if x == 6
    then text "DYNAMIC\t" ∷ []
    else if x == 7
    then text "NOTE\t" ∷ []
    else if x == 8
    then text "NOBITS\t" ∷ []
    else if x == 9
    then text "REL\t" ∷ []
    else if x == 10
    then text "SHLIB\t" ∷ []
    else if x == 11
    then text "DYNSYM\t" ∷ []
    else if x == 1879048195
    then text "ARM_ATTRIBUTES\t" ∷ []
    else if x == 1879048192
    then text "LOPROC\t" ∷ []
    else if x == 2147483647
    then text "HIPROC\t" ∷ []
    else if x == 2147483648
    then text "LOUSER\t" ∷ []
    else if x == 4294967295
    then text "HIUSER\t" ∷ []
    else text "UNKNOWN" ∷ []

-- One letter, if the bit is set.
abbrev flag_letter : ℕ → ℕ → Item → List Item
flag_letter flags bit letter = if bit_and flags bit == 0 then [] else letter ∷ []

unfoldable pub section_flags : ℕ → List Item
section_flags flags =
    flag_letter flags 1 (text "W\t")
    ++ (flag_letter flags 2 (text "A\t")
        ++ (flag_letter flags 4 (text "X\t")
            ++ (flag_letter flags 16 (text "M\t")
                ++ (flag_letter flags 32 (text "S\t")
                    ++ (flag_letter flags 64 (text "I\t") ++ flag_letter flags 128 (text "L\t"))))))

-- One round of the loop: section `i`.
unfoldable pub print_section : Ehdr → List Shdr → ℕ → Shdr → M (List Item)
print_section h sects i s = at_index (get_elem? sects h.e_shstrndx) λ names. do
  name ← print_name (add32 names.sh_offset s.sh_name)
  pure (
      (text "[" ∷ dec i ∷ text "]\t" ∷ chars name ∷ text "\t" ∷ [])
      ++ (section_type s.sh_type
          ++ ((hex 8 s.sh_addr
                ∷ text "\t"
                ∷ hex 6 s.sh_offset
                ∷ text "\t"
                ∷ hex 6 s.sh_size
                ∷ text "\t"
                ∷ hex 2 s.sh_entsize
                ∷ text "\t"
                ∷ [])
              ++ (section_flags s.sh_flags
                  ++ (dec s.sh_link
                      ∷ text "\t"
                      ∷ dec s.sh_info
                      ∷ text "\t"
                      ∷ hex 0 s.sh_addralign
                      ∷ text "\n"
                      ∷ [])))))

-- The loop over the `n` sections left.
unfoldable pub print_sections : Ehdr → List Shdr → ℕ → ℕ → M (List Item)
print_sections h sects zero i = pure []
print_sections h sects (suc n) i = do
  line ← at_index (get_elem? sects i) (print_section h sects i)
  more ← print_sections h sects n (suc i)
  pure (line ++ more)

unfoldable pub print_section_header : Ehdr → List Shdr → M (List Item)
print_section_header h sects = print_sections h sects h.e_shnum 0
