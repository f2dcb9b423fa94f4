-- ===== src/Contents/Backwards.antt =====
-- A section that is followed in the table by one at a lower offset.
use projet_prog.Common.{
  ℕ, zero, suc, ◌+◌, ◌<◌, ◌≤◌, ◌^◌, ◌≡◌, ◌≢◌, List, [], ◌∷◌, ◌++◌, arith, length, false, ◌==◌,
  ge→ltb,
}
use projet_prog.Common.Words.{sub32}
use projet_prog.Stdio.{Stream, fseek, bind_inv, ok, exit}
use projet_prog.Elf.{Ehdr, Shdr, SectionContent, sht_rel}
use projet_prog.Contents.{
  content_size, read_sized, load_content, load_contents, load_section_content,
}
use projet_prog.Contents.Next.{next_offset_least}
use projet_prog.Contents.Held.{ne→==}

content_size_negative :
    (sects : List Shdr) (s after : Shdr)
    → (s.sh_type == sht_rel) ≡ false
    → after.sh_offset < s.sh_offset
    → s.sh_offset < 2 ^ 31
    → 2 ^ 31 ≤ content_size sects s after
unfolding content_size sub32
content_size_negative sects s after t low small =
    rw t (omega (arith, (next_offset_least s.sh_offset sects after.sh_offset).0))

module _ (h : Ehdr) (sects : List Shdr) (s after : Shdr) (t : (s.sh_type == sht_rel) ≡ false)
    (full : s.sh_size ≢ 0) (low : after.sh_offset < s.sh_offset)
    (small : s.sh_offset < 2 ^ 31) where
  load_content_backwards :
      (n : ℕ) (l : List Shdr) (f : Stream) → load_content h sects (suc n) s (after ∷ l) f ≡ exit
  unfolding load_content read_sized fseek
  load_content_backwards n l f = rw (
    ne→== s.sh_size full,
    ge→ltb (content_size sects s after) (2 ^ 31) (content_size_negative sects s after t low small),
  )

  load_contents_backwards :
      (front back : List Shdr) (n : ℕ) (f : Stream) {r : List SectionContent × Stream}
      → length front + 1 < n
      → load_contents h sects n (front ++ (s ∷ after ∷ back)) f ≢ ok r
  unfolding load_contents
  load_contents_backwards front back zero f k e = absurd (omega arith)
  load_contents_backwards [] back (suc zero) f k e = absurd (omega arith)
  load_contents_backwards [] back (suc (suc n)) f k e =
      let (c, f', p, q) = bind_inv (load_content h sects (suc n) s (after ∷ back)) _ f e in
      cc (p, load_content_backwards n back f)
  load_contents_backwards (x ∷ front) back (suc n) f k e =
      let (c, f', p, q) = bind_inv (load_content h sects n x (front ++ (s ∷ after ∷ back))) _ f e in
      let (cs, f'', p', q') =
        bind_inv (load_contents h sects n (front ++ (s ∷ after ∷ back))) _ f' q in
      load_contents_backwards front back n f' (omega arith) p'

-- Where a section that is not a relocation section is not empty, its offset is below 2 ^ 31, and the
-- header behind it in the table has a lower offset, the contents are never loaded.
pub load_section_content_backwards :
    (h : Ehdr) (front back : List Shdr) (s after : Shdr) (f : Stream)
    {r : List SectionContent × Stream}
    → (s.sh_type == sht_rel) ≡ false
    → s.sh_size ≢ 0
    → after.sh_offset < s.sh_offset
    → s.sh_offset < 2 ^ 31
    → length front + 1 < h.e_shnum
    → load_section_content h (front ++ (s ∷ after ∷ back)) f ≢ ok r
unfolding load_section_content
load_section_content_backwards h front back s after f t full low small k e =
    let (u, f', p, q) =
      bind_inv (fseek h.e_ehsize)
        (λ _. load_contents h (front ++ (s ∷ after ∷ back)) h.e_shnum (front ++ (s ∷ after ∷ back)))
        f e in
    load_contents_backwards h (front ++ (s ∷ after ∷ back)) s after t full low small front back
      h.e_shnum f' k q
