-- ===== src/Sections/RoundTrip.antt =====
-- The section headers that `write_section_header` writes, read back by `load_tab_section_header`.
use mathlib.Core.List.{append_assoc, append-nil}
use projet_prog.Common.{
  ℕ, ◌-◌, ◌*◌, ◌^◌, ◌≤◌, ◌≡◌, refl, ap, ◌∙◌, List, [], ◌∷◌, ◌++◌, map, some, arith, length, All,
  drop, ge→ltb, lt→ltb, drop-append,
}
use projet_prog.Common.Words.{IsU16, IsU32, put32, get32-put32}
use projet_prog.Stdio.{
  ◌>>=◌, Stream, Dest, ok, at, split, fread, fseek, flatten, before-write_chunks, write_chunks,
  chain, flatten-chain,
}
use projet_prog.Elf.{Ehdr, Shdr, ElfMain}
use projet_prog.Sections.{
  shdr_of_words, shdr_words, load_words, load_shdrs, load_tab_section_header, write_shdrs,
  write_section_header,
}

-- Every field of the header fits 32 bits.
unfoldable pub IsShdr : Shdr → Type 0
unfolding shdr_words
IsShdr s = All IsU32 (shdr_words s)

shdr_chunks : Shdr → List (List ℕ)
shdr_chunks s = map put32 (shdr_words s)

-- The bytes of a table.
pub shdr_bytes : List Shdr → List ℕ
unfolding shdr_chunks
shdr_bytes [] = []
shdr_bytes (s ∷ l) = flatten (shdr_chunks s) ++ shdr_bytes l

shdr_of_words-shdr_words : (s : Shdr) → shdr_of_words (shdr_words s) ≡ s
unfolding shdr_of_words shdr_words
shdr_of_words-shdr_words s = refl

module _ (f : Stream) where
  fread-put32 : (x : ℕ) (r : List ℕ) → fread 4 (at f (put32 x ++ r)) ≡ ok (some (put32 x), at f r)
  unfolding fread split put32
  fread-put32 x r = refl

  load_words-chain :
      (ws : List ℕ) (room : ℕ) (r : List ℕ)
      → All IsU32 ws
      → 4 * length ws ≤ room
      → load_words (length ws) room (at f (chain (map put32 ws) r)) ≡ ok (some ws, at f r)
  unfolding load_words
  load_words-chain [] room r w h = refl
  load_words-chain (x ∷ ws) room r (p, w) h = rw (
    ge→ltb room 4 (omega arith),
    fread-put32 x (chain (map put32 ws) r),
    load_words-chain ws (room - 4) r w (omega arith),
    get32-put32 x p,
    ◌>>=◌,
  )

  load_shdr-chunks :
      (s : Shdr) (room : ℕ) (r : List ℕ)
      → IsShdr s
      → 40 ≤ room
      → load_words 10 room (at f (flatten (shdr_chunks s) ++ r)) ≡ ok (some (shdr_words s), at f r)
  unfolding IsShdr shdr_chunks shdr_words
  load_shdr-chunks s room r w h =
      rw (flatten-chain (shdr_chunks s) r) (load_words-chain (shdr_words s) room r w h)

  load_shdrs-bytes :
      (l : List Shdr) (room : ℕ) (r : List ℕ)
      → All IsShdr l
      → 40 * length l ≤ room
      → load_shdrs (length l) room (at f (shdr_bytes l ++ r)) ≡ ok (some l, at f r)
  unfolding load_shdrs shdr_bytes
  load_shdrs-bytes [] room r w h = refl
  load_shdrs-bytes (s ∷ l) room r (p, w) h = rw (
    append_assoc (flatten (shdr_chunks s)) (shdr_bytes l) r,
    load_shdr-chunks s room (shdr_bytes l ++ r) p (omega arith),
    load_shdrs-bytes l (room - 40) r w (omega arith),
    shdr_of_words-shdr_words s,
    ◌>>=◌,
  )

-- A table of `length l` headers is written without a fault, behind what was there.
pub write_shdrs-bytes :
    (l : List Shdr) (d : Dest)
    → (d' : Dest) × (write_shdrs (length l) l d ≡ ok d') × (d'.before ≡ d.before ++ shdr_bytes l)
unfolding write_shdrs shdr_bytes
write_shdrs-bytes [] d = (d, refl, rw append-nil)
write_shdrs-bytes (s ∷ l) d =
    let (d', e, p) = write_shdrs-bytes l (write_chunks (shdr_chunks s) d) in
    (d', e, p ∙ rw (before-write_chunks (shdr_chunks s) d, append_assoc))

pub load_tab_section_header-bytes :
    (h : Ehdr) (l : List Shdr) (f : Stream) (front r : List ℕ)
    → h.e_shnum ≡ length l
    → IsU16 h.e_shnum
    → All IsShdr l
    → h.e_shentsize ≡ 40
    → h.e_shoff ≡ length front
    → f.bytes ≡ front ++ (shdr_bytes l ++ r)
    → load_tab_section_header h f ≡ ok (some l, at f r)
unfolding load_tab_section_header fseek
load_tab_section_header-bytes h l f front r n u w z o b = rw (
  n,
  z,
  lt→ltb (40 * length l) (2 ^ 31) (omega arith),
  o,
  ap (drop (length front)) b ∙ drop-append front (shdr_bytes l ++ r),
  load_shdrs-bytes f l (40 * length l) r w (omega arith),
  ◌>>=◌,
)

-- Let the table of the program hold e_shnum headers whose fields fit their types, e_shentsize be 40
-- and e_shoff be the position of the destination. Then `write_section_header` succeeds, and
-- `load_tab_section_header` on a file that starts with what is written up to the position reached
-- returns the same table, wherever the position of that file was, and moves it behind the table.
pub load_tab_section_header-write_section_header :
    (e : ElfMain) (l : List Shdr) (d : Dest) (r rest : List ℕ)
    → e.sect_header ≡ some l
    → e.header.e_shnum ≡ length l
    → IsU16 e.header.e_shnum
    → All IsShdr l
    → e.header.e_shentsize ≡ 40
    → e.header.e_shoff ≡ length d.before
    → (d' : Dest) × (write_section_header e d ≡ ok d')
      × (load_tab_section_header e.header (record { bytes = d'.before ++ r; rest = rest })
          ≡ ok (some l, record { bytes = d'.before ++ r; rest = r }))
unfolding write_section_header
load_tab_section_header-write_section_header e l d r rest s n u w z o =
    let (d', e1, p) = write_shdrs-bytes l d in
    let f : Stream = record { bytes = d'.before ++ r; rest = rest } in
    (
      d',
      rw (s, n) e1,
      load_tab_section_header-bytes e.header l f d.before r n u w z o
          (ap (λ b. b ++ r) p ∙ append_assoc d.before (shdr_bytes l) r),
    )
