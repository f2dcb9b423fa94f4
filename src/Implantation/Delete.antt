-- ===== src/Implantation/Delete.antt =====
pub mod Shift
pub mod Rows
pub mod Kept
pub mod Left
pub mod Laws
pub mod Result
-- `deleteRel` of Functions/implantation.c: the relocation sections are removed from the tables.
use projet_prog.Common.{
  ℕ, zero, suc, ◌-◌, ◌&&◌, ◌||◌, true, false, Option, none, some, List, [], ◌∷◌, ltb, leb, ◌==◌,
  if◌then◌else◌, get_elem?, set, take,
}
use projet_prog.Common.Words.{sub32, sub16}
use projet_prog.Stdio.{Outcome, ok, exit, fault}
use projet_prog.Elf.{
  Shdr, Symbol, SectionContent, Buffer, uninit, null, block, ElfMain, sht_symtab, sht_hash,
  sht_dynamic, sht_rel,
}
use projet_prog.Sections.{array}

-- `a[j] = a[j + 1]`, for structures.
unfoldable pub copy_down {ℓ} : {A : Type ℓ} → List A → ℕ → List A
copy_down a j = elim (get_elem? a (suc j)) [ none ↦ a | some x ↦ set a j x ]

-- for (j = i+1; j < n; j++) a[j-1] = a[j]; with `rounds` rounds left, from `j - 1` on.
unfoldable pub shift_down {ℓ} : {A : Type ℓ} → ℕ → ℕ → List A → List A
shift_down zero j a = a
shift_down (suc rounds) j a = shift_down rounds (suc j) (copy_down a j)

-- The new block of `sectionContent[j]` after realloc to `size` bytes and memmove from `source`.
-- A block of no bytes is freed by realloc, which returns NULL.
unfoldable pub move_block : Buffer → Buffer → ℕ → Outcome Buffer
move_block uninit source size = fault
move_block old uninit size = fault
move_block old source zero = ok null
move_block old null (suc n) = fault
move_block old (block bs) (suc n) = ok (block (take (suc n) bs))

-- sectionContent[j] takes the size and the bytes of sectionContent[j + 1].
unfoldable pub copy_content : List SectionContent → ℕ → Outcome (List SectionContent)
copy_content a j = elim (get_elem? a j) [
  | none ↦ fault
  | some old ↦ elim (get_elem? a (suc j)) [
    | none ↦ fault
    | some c ↦ elim (move_block old.section c.section c.size) [
      | ok b ↦ ok (set a j (record { section = b; size = c.size }))
      | exit ↦ exit
      | fault ↦ fault
    ]
  ]
]

unfoldable pub shift_contents : ℕ → ℕ → List SectionContent → Outcome (List SectionContent)
shift_contents zero j a = ok a
shift_contents (suc rounds) j a = elim (copy_content a j) [
  | ok a' ↦ shift_contents rounds (suc j) a'
  | exit ↦ exit
  | fault ↦ fault
]

-- The change of one header when section `i` is removed: its offset by the `size` bytes that stood
-- at `offset`, and its link if it is one of three types.
unfoldable pub renumber : ℕ → ℕ → ℕ → Shdr → Shdr
unfolding sub32
renumber i size offset s = record s {
  sh_offset = if ltb offset s.sh_offset then sub32 s.sh_offset size else s.sh_offset;
  sh_link =
      if ltb i s.sh_link
        && (s.sh_type == sht_hash || (s.sh_type == sht_dynamic || s.sh_type == sht_symtab))
      then sub32 s.sh_link 1
      else s.sh_link;
}

-- The loop of the first `n` elements of an array.
unfoldable pub map_first {ℓ} : {A : Type ℓ} → (A → A) → ℕ → List A → List A
map_first f zero l = l
map_first f (suc n) [] = []
map_first f (suc n) (x ∷ l) = f x ∷ map_first f n l

unfoldable pub renumber_symbol : ℕ → Symbol → Symbol
unfolding sub16
renumber_symbol i s = record s {
  st_shndx = if leb i s.st_shndx then sub16 s.st_shndx 1 else s.st_shndx;
}

-- The number of rounds of a loop up to `nb_symboles`: none for -1.
abbrev pub rounds : Option ℕ → ℕ
rounds none = 0
rounds (some n) = n

-- free(sectionContent[j].section): the pointer stays, and is as one that was never set.
unfoldable pub free_content : List SectionContent → ℕ → Outcome (List SectionContent)
free_content a j = elim (get_elem? a j) [
  | none ↦ fault
  | some c ↦ elim c.section [
    | uninit ↦ fault
    | null ↦ ok a
    | block _ ↦ ok (set a j (record c { section = uninit }))
  ]
]

unfoldable pub delete_content : ℕ → ℕ → List SectionContent → Outcome (List SectionContent)
delete_content n i a = elim (shift_contents (n - suc i) i a) [
  | ok a' ↦ free_content a' (n - 1)
  | exit ↦ exit
  | fault ↦ fault
]

-- The structure when section `i`, whose header is `s`, is removed and these contents are left.
unfoldable pub removed : ℕ → Shdr → List SectionContent → ElfMain → ElfMain
unfolding sub32 sub16
removed i s contents e =
    let n = e.header.e_shnum in
    record e {
      header = record e.header {
        e_shstrndx =
            if ltb i e.header.e_shstrndx then e.header.e_shstrndx - 1 else e.header.e_shstrndx;
        e_shoff = sub32 e.header.e_shoff s.sh_size;
        e_shnum = n - 1;
      };
      sect_header = some (
          map_first (renumber i s.sh_size s.sh_offset) n
            (shift_down (n - suc i) i (array e.sect_header)));
      section_content = contents;
      sym_table = elim e.sym_table [
        | none ↦ none
        | some l ↦ some (map_first (renumber_symbol i) (rounds e.nb_symboles) l)
      ];
    }

unfoldable pub delete_section : ℕ → Shdr → ElfMain → Outcome ElfMain
delete_section i s e = elim (delete_content e.header.e_shnum i e.section_content) [
  | ok contents ↦ ok (removed i s contents e)
  | exit ↦ exit
  | fault ↦ fault
]

-- The `while`. Each round removes a section or passes one, so `e_shnum` rounds are enough.
unfoldable pub delete_loop : ℕ → ℕ → ElfMain → Outcome ElfMain
delete_loop zero i e = ok e
delete_loop (suc fuel) i e = elim (ltb i e.header.e_shnum) [
  | false ↦ ok e
  | true ↦ elim (get_elem? (array e.sect_header) i) [
    | none ↦ fault
    | some s ↦ elim (s.sh_type == sht_rel) [
      | true ↦ elim (delete_section i s e) [
        | ok e' ↦ delete_loop fuel i e'
        | exit ↦ exit
        | fault ↦ fault
      ]
      | false ↦ delete_loop fuel (suc i) e
    ]
  ]
]

unfoldable pub delete_rel : ElfMain → Outcome ElfMain
delete_rel e = delete_loop e.header.e_shnum 0 e
