-- ===== src/Display/Symbols.antt =====
-- `printSymTable` of Functions/readSymTable.c.
pub mod Masks
use projet_prog.Common.{
  ℕ, zero, suc, List, [], ◌∷◌, ◌++◌, Option, none, some, ◌==◌, if◌then◌else◌, get_elem?, bit_and,
}
use projet_prog.Common.Words.{add32}
use projet_prog.Stdio.{M, ◌>>=◌, pure, crash}
use projet_prog.Elf.{Ehdr, Shdr, Symbol, st_bind, st_type}
use projet_prog.Names.{print_name}
use projet_prog.Display.Item.{Item, text, dec, hex, chars, at_index}

-- The first `switch`, over a number of four bits.
unfoldable pub type_name : ℕ → List Item
type_name x =
    if x == 0
    then text "NOTYPE\t" ∷ []
    else if x == 1
    then text "OBJECT\t" ∷ []
    else if x == 2
    then text "FUNC\t" ∷ []
    else if x == 3
    then text "SECTION\t" ∷ []
    else if x == 4
    then text "FILE\t" ∷ []
    else if x == 13
    then text "LOPROC\t" ∷ []
    else if x == 15
    then text "HIPROC\t" ∷ []
    else []

-- The second `switch`.
unfoldable pub bind_name : ℕ → List Item
bind_name x =
    if x == 0
    then text "LOCAL\t" ∷ []
    else if x == 1
    then text "GLOBAL\t" ∷ []
    else if x == 2
    then text "WEAK\t" ∷ []
    else if x == 13
    then text "LOPROC\t" ∷ []
    else if x == 15
    then text "HIPROC\t" ∷ []
    else []

-- The third `switch`, over the section of a symbol.
unfoldable pub place_name : ℕ → List Item
place_name x =
    if x == 0
    then text "UND\t" ∷ []
    else if x == 65280
    then text "LORESERVE\t" ∷ []
    else if x == 65311
    then text "HIPROC\t" ∷ []
    else if x == 65521
    then text "ABS\t" ∷ []
    else if x == 65522
    then text "COMMON\t" ∷ []
    else if x == 65535
    then text "HIRESERVE\t" ∷ []
    else dec x ∷ text "\t" ∷ []

-- What the `switch`es make of `st_info`.
unfoldable pub shown_type : ℕ → List Item
shown_type info = type_name (bit_and info (st_type info))

unfoldable pub shown_bind : ℕ → List Item
shown_bind info = bind_name (bit_and 1 (st_bind info))

-- The index before e_shstrndx. It is an int: before 0 there is no element.
unfoldable pub before_index : List Shdr → ℕ → Option Shdr
before_index sects zero = none
before_index sects (suc i) = get_elem? sects i

unfoldable pub print_symbol : Ehdr → List Shdr → ℕ → Symbol → M (List Item)
print_symbol h sects j s = at_index (before_index sects h.e_shstrndx) λ strings. do
  name ← print_name (add32 strings.sh_offset s.st_name)
  pure (
      (dec j ∷ text ":\t" ∷ hex 8 s.st_value ∷ text "\t" ∷ dec s.st_size ∷ text "\t" ∷ [])
      ++ (shown_type s.st_info
          ++ (shown_bind s.st_info
              ++ ((text "DEFAULT\t" ∷ [])
                  ++ (place_name s.st_shndx ++ (chars name ∷ text "\t" ∷ text "\n" ∷ []))))))

-- The loop over the `n` symbols left, the first of which has the index `j`.
unfoldable pub print_symbols : Ehdr → List Shdr → ℕ → ℕ → List Symbol → M (List Item)
print_symbols h sects zero j l = pure []
print_symbols h sects (suc n) j [] = crash
print_symbols h sects (suc n) j (s ∷ l) = do
  line ← print_symbol h sects j s
  more ← print_symbols h sects n (suc j) l
  pure (line ++ more)

unfoldable pub print_sym_table : Ehdr → List Shdr → Option (List Symbol) → Option ℕ → M (List Item)
print_sym_table h sects none n = pure []
print_sym_table h sects (some l) none = pure []
print_sym_table h sects (some l) (some n) = print_symbols h sects n 0 l
