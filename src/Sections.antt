-- ===== src/Sections.antt =====
-- `loadTabSectionHeader` of Functions/readSectionHeader.c and `writeSectionHeader` of
-- Functions/writeFile.c: the table of section headers.
pub mod RoundTrip
use mathlib.Core.Option
use projet_prog.Common.{
  ℕ, zero, suc, ◌-◌, ◌*◌, ◌^◌, Option, none, some, List, [], ◌∷◌, map, ltb, if◌then◌else◌, get_or,
}
use projet_prog.Common.Words.{get32, put32}
use projet_prog.Stdio.{
  M, pure, crash, ◌>>=◌, ◌>>◌, fread, fseek, Dest, write_chunks, Outcome, ok, fault,
}
use projet_prog.Elf.{Ehdr, Shdr, ElfMain}

-- An Elf32_Shdr is ten words of memory, in the order of its fields.
unfoldable pub shdr_of_words : List ℕ → Shdr
shdr_of_words ws = record {
  sh_name = get_or ws 0 0;
  sh_type = get_or ws 1 0;
  sh_flags = get_or ws 2 0;
  sh_addr = get_or ws 3 0;
  sh_offset = get_or ws 4 0;
  sh_size = get_or ws 5 0;
  sh_link = get_or ws 6 0;
  sh_info = get_or ws 7 0;
  sh_addralign = get_or ws 8 0;
  sh_entsize = get_or ws 9 0;
}

unfoldable pub shdr_words : Shdr → List ℕ
shdr_words s =
    s.sh_name ∷ s.sh_type ∷ s.sh_flags ∷ s.sh_addr ∷ s.sh_offset ∷ s.sh_size ∷ s.sh_link ∷ s.sh_info
    ∷ s.sh_addralign ∷ s.sh_entsize ∷ []

-- The inner loop: `n` words, into a table that has `room` bytes left. Reading into memory behind
-- the table is a fault; where a word cannot be read the function returns NULL, here `none`.
unfoldable pub load_words : ℕ → ℕ → M (Option (List ℕ))
load_words zero room = pure (some [])
load_words (suc n) room = if ltb room 4 then crash else (do
  word ← fread 4
  elim word [
    | none ↦ pure none
    | some b ↦ do more ← load_words n (room - 4); pure (Option.map (λ ws. get32 b ∷ ws) more)
  ])

-- The outer loop, over the sections.
unfoldable pub load_shdrs : ℕ → ℕ → M (Option (List Shdr))
load_shdrs zero room = pure (some [])
load_shdrs (suc n) room = do
  words ← load_words 10 room
  elim words [
    | none ↦ pure none
    | some ws ↦ do
      more ← load_shdrs n (room - 40)
      pure (Option.map (λ l. shdr_of_words ws ∷ l) more)
  ]

-- The table has e_shentsize * e_shnum bytes; the product is an int, and overflows from 2 ^ 31 on.
unfoldable pub load_tab_section_header : Ehdr → M (Option (List Shdr))
load_tab_section_header h =
    if ltb (h.e_shentsize * h.e_shnum) (2 ^ 31)
    then (do fseek h.e_shoff; load_shdrs h.e_shnum (h.e_shentsize * h.e_shnum))
    else crash

-- A pointer to an array, read: NULL has no element.
abbrev pub array {ℓ} : {A : Type ℓ} → Option (List A) → List A
array none = []
array (some l) = l

-- The loop over the sections, each the ten words of its header.
unfoldable pub write_shdrs : ℕ → List Shdr → Dest → Outcome Dest
write_shdrs zero l d = ok d
write_shdrs (suc n) [] d = fault
write_shdrs (suc n) (s ∷ l) d = write_shdrs n l (write_chunks (map put32 (shdr_words s)) d)

unfoldable pub write_section_header : ElfMain → Dest → Outcome Dest
write_section_header e d = write_shdrs e.header.e_shnum (array e.sect_header) d
