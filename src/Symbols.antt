-- ===== src/Symbols.antt =====
-- `loadSymTable` of Functions/readSymTable.c: the symbol table.
pub mod RoundTrip
use projet_prog.Common.{
  ℕ, zero, suc, ◌-◌, ◌*◌, ◌/◌, ◌%◌, ◌^◌, Option, none, some, List, [], ◌∷◌, ltb, ◌==◌,
  if◌then◌else◌,
}
use projet_prog.Stdio.{M, pure, crash, ◌>>=◌, ◌>>◌, fseek, Outcome, ok, exit, fault}
use projet_prog.Elf.{Ehdr, Shdr, Symbol, sht_symtab}
use projet_prog.Header.{load_byte, load_half, load_word}

-- The `while`: the first of the `n` headers left whose type is SHT_SYMTAB.
unfoldable pub find_symtab : ℕ → List Shdr → Outcome (Option Shdr)
find_symtab zero l = ok none
find_symtab (suc n) [] = fault
find_symtab (suc n) (s ∷ l) =
    let later = find_symtab n l in if s.sh_type == sht_symtab then ok (some s) else later

unfoldable pub load_symbol : M Symbol
load_symbol = do
  name ← load_word
  value ← load_word
  size ← load_word
  info ← load_byte
  other ← load_byte
  shndx ← load_half
  pure (record {
    st_name = name;
    st_value = value;
    st_size = size;
    st_info = info;
    st_other = other;
    st_shndx = shndx;
  })

-- The `for`: `n` symbols, into a table that has `room` bytes left.
unfoldable pub load_symbols : ℕ → ℕ → M (List Symbol)
load_symbols zero room = pure []
load_symbols (suc n) room =
    if ltb room 16
    then crash
    else (do s ← load_symbol; l ← load_symbols n (room - 16); pure (s ∷ l))

-- With no symbol table: NULL, and -1 symbols. The argument of malloc is a product of 32 bits.
unfoldable pub load_table : Option Shdr → M (Option (List Symbol) × Option ℕ)
load_table none = pure (none, none)
load_table (some s) = do
  fseek s.sh_offset
  l ← load_symbols (s.sh_size / 16) (s.sh_size * 16 % 2 ^ 32)
  pure (some l, some (s.sh_size / 16))

unfoldable pub load_sym_table : Ehdr → List Shdr → M (Option (List Symbol) × Option ℕ)
load_sym_table h sects = do
  s ← (λ f. elim (find_symtab h.e_shnum sects) [ ok s ↦ ok (s, f) | exit ↦ exit | fault ↦ fault ])
  load_table s
