-- ===== src/Display/Relocs.antt =====
-- `printRelocTable` of Functions/readRelocTable.c.
use projet_prog.Common.{
  ℕ, zero, suc, List, [], ◌∷◌, ◌++◌, Option, none, some, ◌==◌, if◌then◌else◌, get_elem?,
}
use projet_prog.Common.Words.{add32}
use projet_prog.Stdio.{M, ◌>>=◌, pure, crash}
use projet_prog.Elf.{Ehdr, Shdr, Symbol, Rel, r_sym, r_type, TableauSectionReloc}
use projet_prog.Names.{print_name}
use projet_prog.Display.Item.{Item, text, hex, chars, at_index}
use projet_prog.Display.Symbols.{before_index}

-- The `switch` over the type of a relocation.
unfoldable pub reloc_type : ℕ → List Item
reloc_type x =
    if x == 2
    then text "R_ARM_ABS32\t" ∷ []
    else if x == 5
    then text "R_ARM_ABS16\t" ∷ []
    else if x == 8
    then text "R_ARM_ABS8\t" ∷ []
    else if x == 28
    then text "R_ARM_CALL\t" ∷ []
    else if x == 29
    then text "R_ARM_JUMP24\t" ∷ []
    else []

-- The name of a relocation: of its symbol, or of the section of a symbol whose value is 0.
unfoldable pub reloc_name : Ehdr → List Shdr → Symbol → M (List ℕ)
reloc_name h sects s =
    if s.st_value == 0
    then at_index (get_elem? sects h.e_shstrndx) (λ names.
      at_index (get_elem? sects s.st_shndx) λ own. print_name (add32 names.sh_offset own.sh_name))
    else at_index (before_index sects h.e_shstrndx)
        λ strings. print_name (add32 strings.sh_offset s.st_name)

unfoldable pub print_rel : Ehdr → List Shdr → List Symbol → Rel → M (List Item)
print_rel h sects syms r = at_index (get_elem? syms (r_sym r.r_info)) λ s. do
  name ← reloc_name h sects s
  pure (
      (hex 8 r.r_offset ∷ text "\t" ∷ hex 8 r.r_info ∷ text "\t" ∷ [])
      ++ (reloc_type (r_type r.r_info)
          ++ (hex 8 s.st_value ∷ text "\t" ∷ chars name ∷ text "\t" ∷ text "\n" ∷ [])))

unfoldable pub print_rels : Ehdr → List Shdr → List Symbol → ℕ → List Rel → M (List Item)
print_rels h sects syms zero l = pure (text "\n" ∷ [])
print_rels h sects syms (suc n) [] = crash
print_rels h sects syms (suc n) (r ∷ l) = do
  line ← print_rel h sects syms r
  more ← print_rels h sects syms n l
  pure (line ++ more)

unfoldable pub print_tables :
    Ehdr → List Shdr → List Symbol → ℕ → List ℕ → List (List Rel) → M (List Item)
print_tables h sects syms zero counts tables = pure []
print_tables h sects syms (suc n) [] tables = crash
print_tables h sects syms (suc n) (k ∷ counts) [] = crash
print_tables h sects syms (suc n) (k ∷ counts) (t ∷ tables) = do
  front ← print_rels h sects syms k t
  more ← print_tables h sects syms n counts tables
  pure (front ++ more)

unfoldable pub print_reloc_table :
    Ehdr → List Shdr → List Symbol → Option (List (List Rel)) → TableauSectionReloc → M (List Item)
print_reloc_table h sects syms none t = pure (text "There are no relocations in this file.\n" ∷ [])
print_reloc_table h sects syms (some tables) t =
    print_tables h sects syms t.nb_sections t.tab_nb tables
