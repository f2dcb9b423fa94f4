-- ===== src/Implantation/Move.antt =====
-- `correctSymTable` of Functions/implantation.c: the symbols of .text and .data are moved.
pub mod Sections
pub mod Moved
use projet_prog.Common.{
  ℕ, zero, suc, ◌&&◌, Bool, true, false, Option, none, some, List, [], ◌∷◌, ◌==◌, if◌then◌else◌,
  get_elem?,
}
use projet_prog.Common.Words.{add32}
use projet_prog.Stdio.{M, pure, crash, ◌>>=◌}
use projet_prog.Elf.{Ehdr, Shdr, Symbol, ElfMain}
use projet_prog.Sections.{array}
use projet_prog.Names.{print_name}

-- !strcmp
unfoldable pub same_name : List ℕ → List ℕ → Bool
same_name [] [] = true
same_name [] (y ∷ ys) = false
same_name (x ∷ xs) [] = false
same_name (x ∷ xs) (y ∷ ys) = x == y && same_name xs ys

abbrev pub text_name : List ℕ
text_name = b'.' ∷ b't' ∷ b'e' ∷ b'x' ∷ b't' ∷ []

abbrev pub data_name : List ℕ
data_name = b'.' ∷ b'd' ∷ b'a' ∷ b't' ∷ b'a' ∷ []

-- A symbol of a section of this name, moved.
unfoldable pub move_symbol : ℕ → ℕ → List ℕ → Symbol → Symbol
unfolding add32
move_symbol text data_addr name s =
    if same_name name text_name
    then record s { st_value = add32 s.st_value text }
    else if same_name name data_name
    then record s { st_value = add32 s.st_value data_addr }
    else s

abbrev pub element {ℓ} : {A : Type ℓ} → Option A → (A → M Symbol) → M Symbol
element none k = crash
element (some a) k = k a

-- One round of the loop of `correctSymTable`.
unfoldable pub correct_symbol : Ehdr → List Shdr → ℕ → ℕ → Symbol → M Symbol
correct_symbol h sects text data_addr s = element (get_elem? sects h.e_shstrndx) λ names.
    element (get_elem? sects s.st_shndx) λ own. do
      name ← print_name (add32 names.sh_offset own.sh_name)
      pure (move_symbol text data_addr name s)

unfoldable pub correct_symbols : Ehdr → List Shdr → ℕ → ℕ → ℕ → List Symbol → M (List Symbol)
correct_symbols h sects text data_addr zero l = pure l
correct_symbols h sects text data_addr (suc n) [] = crash
correct_symbols h sects text data_addr (suc n) (s ∷ l) = do
  s' ← correct_symbol h sects text data_addr s
  l' ← correct_symbols h sects text data_addr n l
  pure (s' ∷ l')

unfoldable pub correct_sym_table : ElfMain → ℕ → ℕ → M ElfMain
correct_sym_table e text data_addr = elim e.nb_symboles [
  | none ↦ pure e
  | some n ↦ do
    l ← correct_symbols e.header (array e.sect_header) text data_addr n (array e.sym_table)
    pure (record e { sym_table = elim e.sym_table [ none ↦ none | some _ ↦ some l ] })
]
