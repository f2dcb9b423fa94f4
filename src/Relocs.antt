-- ===== src/Relocs.antt =====
-- `loadRelocTable` of Functions/readRelocTable.c: the relocation tables.
pub mod Counts
use projet_prog.Common.{
  ℕ, zero, suc, ◌/◌, Option, none, some, List, [], ◌∷◌, map, ltb, ◌==◌, if◌then◌else◌, length,
}
use projet_prog.Stdio.{M, pure, crash, ◌>>=◌, ◌>>◌, fseek}
use projet_prog.Elf.{Ehdr, Shdr, Rel, TableauSectionReloc, sht_rel}
use projet_prog.Header.{load_word}

unfoldable pub load_rel : M Rel
load_rel = do
  offset ← load_word
  info ← load_word
  pure (record { r_offset = offset; r_info = info })

-- The inner `for`, over the entries of one section.
unfoldable pub load_rels : ℕ → M (List Rel)
load_rels zero = pure []
load_rels (suc n) = do r ← load_rel; l ← load_rels n; pure (r ∷ l)

-- The `while`, over the `n` headers left, with `k` tables loaded: `TabNb` has 256 places. Each
-- table comes with the number stored in `TabNb`.
unfoldable pub load_tables : ℕ → List Shdr → ℕ → M (List (List Rel × ℕ))
load_tables zero l k = pure []
load_tables (suc n) [] k = crash
load_tables (suc n) (s ∷ l) k =
    if s.sh_type == sht_rel
    then (if ltb k 256
        then (do
          fseek s.sh_offset
          rels ← load_rels (s.sh_size / 8)
          more ← load_tables n l (suc k)
          pure ((rels, s.sh_size / 8) ∷ more))
        else crash)
    else load_tables n l k

-- No table at all is NULL.
abbrev pub tables_or_null : List (List Rel) → Option (List (List Rel))
tables_or_null [] = none
tables_or_null (t ∷ ts) = some (t ∷ ts)

unfoldable pub load_reloc_table :
    Ehdr → List Shdr → M (Option (List (List Rel)) × TableauSectionReloc)
load_reloc_table h sects = do
  tables ← load_tables h.e_shnum sects 0
  pure (
    tables_or_null (map (λ t. t.0) tables),
    record { tab_nb = map (λ t. t.1) tables; nb_sections = length tables },
  )
