-- ===== src/Contents.antt =====
-- `loadSectionContent` of Functions/readSectionContent.c: the bytes of each section.
pub mod Empty
pub mod Backwards
pub mod Held
pub mod Next
use projet_prog.Common.{ℕ, zero, suc, ◌^◌, ◌&&◌, List, [], ◌∷◌, ltb, ◌==◌, if◌then◌else◌}
use projet_prog.Common.Words.{sub32}
use projet_prog.Stdio.{M, pure, crash, stop, ◌>>=◌, ◌>>◌, fseek, fread_or_exit}
use projet_prog.Elf.{Ehdr, Shdr, SectionContent, uninit, block, sht_rel}

-- The `for` over `j`: the offset of the section `val`, which starts with that of the next header.
unfoldable pub next_offset : ℕ → List Shdr → ℕ → ℕ
next_offset offset [] val = val
next_offset offset (s ∷ l) val =
    next_offset offset l
      (if ltb offset s.sh_offset && ltb s.sh_offset val then s.sh_offset else val)

-- `fread(section, size, 1, file) != 1` holds for no bytes at all, too.
unfoldable pub read_block : ℕ → M SectionContent
read_block size =
    if size == 0
    then stop
    else (do b ← fread_or_exit size; pure (record { section = block b; size = size }))

-- The size of a section that is not the last one, given the header behind it.
unfoldable pub content_size : List Shdr → Shdr → Shdr → ℕ
content_size sects s after =
    if s.sh_type == sht_rel
    then s.sh_size
    else sub32 (next_offset s.sh_offset sects after.sh_offset) s.sh_offset

-- `size` is an int: malloc refuses a negative one.
unfoldable pub read_sized : ℕ → M SectionContent
read_sized size = if ltb size (2 ^ 31) then read_block size else stop

-- Section `s`, with `n` sections behind it, whose headers are `l`.
unfoldable pub load_content : Ehdr → List Shdr → ℕ → Shdr → List Shdr → M SectionContent
load_content h sects n s l =
    if s.sh_size == 0 then pure (record { section = uninit; size = 0 }) else (do
      fseek s.sh_offset
      elim n [
        | zero ↦ read_block (sub32 h.e_shoff s.sh_offset)
        | suc _ ↦ elim l [ [] ↦ crash | after ∷ _ ↦ read_sized (content_size sects s after) ]
      ])

unfoldable pub load_contents : Ehdr → List Shdr → ℕ → List Shdr → M (List SectionContent)
load_contents h sects zero l = pure []
load_contents h sects (suc n) [] = crash
load_contents h sects (suc n) (s ∷ l) = do
  c ← load_content h sects n s l
  more ← load_contents h sects n l
  pure (c ∷ more)

unfoldable pub load_section_content : Ehdr → List Shdr → M (List SectionContent)
load_section_content h sects = do fseek h.e_ehsize; load_contents h sects h.e_shnum sects
