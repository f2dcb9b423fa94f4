-- ===== src/Contents/Next.antt =====
-- Where the bytes of a section end, as `next_offset` computes it.
use projet_prog.Common.{ℕ, ◌<◌, ◌≤◌, ◌≡◌, ◌⊎◌, inl, refl, List, [], ◌∷◌, arith, All}
use projet_prog.Elf.{Shdr}
use projet_prog.Contents.{next_offset}

-- One of these sections starts at `v`.
unfoldable pub IsOffset : List Shdr → ℕ → Type 0
IsOffset [] v = ⊥
IsOffset (s ∷ l) v = (s.sh_offset ≡ v) ⊎ IsOffset l v

-- Whatever the order of the sections, `next_offset` returns the least of the start value and the
-- offsets that are greater than `offset`: it is at most the start value, no section starts between
-- `offset` and it, and it is the start value or the offset of a section, greater than `offset`.
pub next_offset_least :
    (offset : ℕ) (l : List Shdr) (val : ℕ)
    → (next_offset offset l val ≤ val)
      × All (λ s. (s.sh_offset ≤ offset) ⊎ (next_offset offset l val ≤ s.sh_offset)) l
      × ((next_offset offset l val ≡ val)
          ⊎ ((offset < next_offset offset l val) × IsOffset l (next_offset offset l val)))
unfolding next_offset IsOffset
next_offset_least offset [] val = (omega arith, tt, inl refl)
next_offset_least offset (s ∷ l) val =
    ground (arith, next_offset_least offset l s.sh_offset, next_offset_least offset l val)
