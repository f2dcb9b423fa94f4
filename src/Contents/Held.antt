-- ===== src/Contents/Held.antt =====
-- Contents that stand in a file where their headers say, loaded by `load_section_content`.
use mathlib.Core.List.{append_assoc}
use projet_prog.Common.{
  ℕ, zero, suc, ◌^◌, ◌<◌, ◌≡◌, ◌≢◌, ◌⊎◌, inl, inr, refl, ap, ◌∙◌, List, [], ◌∷◌, ◌++◌, false, arith,
  length, drop, drop-append, ◌==◌, lt→ltb,
}
use projet_prog.Common.Words.{sub32}
use projet_prog.Stdio.{◌>>=◌, Stream, ok, at, fseek, fread_or_exit-append}
use projet_prog.Elf.{Ehdr, Shdr, SectionContent, uninit, null, block, Buffer-cases}
use projet_prog.Contents.{
  read_block, content_size, read_sized, load_content, load_contents, load_section_content,
}

-- These bytes stand at this offset of the file.
unfoldable pub Holds : List ℕ → ℕ → List ℕ → Type 0
Holds file offset bs =
    (front : List ℕ) × (back : List ℕ) × (file ≡ front ++ (bs ++ back)) × (offset ≡ length front)

-- The bytes of a content stand at the offset of its section.
abbrev pub HoldsContent : List ℕ → Shdr → SectionContent → Type 0
HoldsContent file s c = elim c.section [
  | uninit ↦ Unit {0}
  | null ↦ Unit {0}
  | block bs ↦ Holds file s.sh_offset bs
]

abbrev pub Held : List ℕ → List Shdr → List SectionContent → Type 0
Held file (s ∷ l) (c ∷ cs) = HoldsContent file s c × Held file l cs
Held file [] cs = Unit {0}
Held file (s ∷ l) [] = Unit {0}

-- The content of a section of size 0.
abbrev pub no_content : SectionContent
no_content = record { section = uninit; size = 0 }

abbrev pub content_of : List ℕ → SectionContent
content_of bs = record { section = block bs; size = length bs }

-- What the loader finds out about the size of a section with `n` behind it, whose headers are `l`.
abbrev pub IsSize : Ehdr → List Shdr → ℕ → Shdr → List Shdr → ℕ → Type 0
IsSize h sects zero s l size = sub32 h.e_shoff s.sh_offset ≡ size
IsSize h sects (suc n) s [] size = ⊥
IsSize h sects (suc n) s (after ∷ l) size = (content_size sects s after ≡ size) × (size < 2 ^ 31)

-- The content has the size that the loader finds out.
abbrev pub IsSized : Ehdr → List Shdr → ℕ → Shdr → List Shdr → SectionContent → Type 0
IsSized h sects n s l c =
    ((s.sh_size ≡ 0) × (c ≡ no_content))
    ⊎ ((bs : List ℕ) × (c ≡ content_of bs)
        × (s.sh_size ≢ 0)
        × (length bs ≢ 0)
        × IsSize h sects n s l (length bs))

abbrev pub Sized : Ehdr → List Shdr → ℕ → List Shdr → List SectionContent → Type 0
Sized h sects zero l [] = Unit {0}
Sized h sects zero l (c ∷ cs) = ⊥
Sized h sects (suc n) (s ∷ l) (c ∷ cs) = IsSized h sects n s l c × Sized h sects n l cs
Sized h sects (suc n) [] cs = ⊥
Sized h sects (suc n) (s ∷ l) [] = ⊥

pub Holds-append :
    (file more : List ℕ) (offset : ℕ) (bs : List ℕ)
    → Holds file offset bs
    → Holds (file ++ more) offset bs
unfolding Holds
Holds-append file more offset bs (front, back, e, o) = (
  front,
  back ++ more,
  ap (λ x. x ++ more) e
      ∙ append_assoc front (bs ++ back) more
      ∙ ap (λ x. front ++ x) (append_assoc bs back more),
  o,
)

HoldsContent-append :
    (file more : List ℕ) (s : Shdr) (c : SectionContent)
    → HoldsContent file s c
    → HoldsContent (file ++ more) s c
HoldsContent-append file more s c w = elim (Buffer-cases c.section) [
  | inl p ↦ rw (p, HoldsContent) tt
  | inr (inl p) ↦ rw (p, HoldsContent) tt
  | inr (inr (bs, p)) ↦
      rw (p, HoldsContent) (Holds-append file more s.sh_offset bs (rw (p, HoldsContent) at w))
]

-- A longer file holds them still.
pub Held-append :
    (file more : List ℕ) (l : List Shdr) (cs : List SectionContent)
    → Held file l cs
    → Held (file ++ more) l cs
Held-append file more [] cs w = tt
Held-append file more (s ∷ l) [] w = tt
Held-append file more (s ∷ l) (c ∷ cs) (w, ws) =
    (HoldsContent-append file more s c w, Held-append file more l cs ws)

pub ne→== : (x : ℕ) → x ≢ 0 → (x == 0) ≡ false
ne→== x n = ground arith

read_block-append :
    (bs back : List ℕ) (f : Stream)
    → length bs ≢ 0
    → read_block (length bs) (at f (bs ++ back)) ≡ ok (content_of bs, at f back)
unfolding read_block
read_block-append bs back f n = rw (ne→== (length bs) n, fread_or_exit-append f bs back, ◌>>=◌)

-- Behind fseek, the stream stands at the bytes.
drop-Holds :
    (file bs : List ℕ) (offset : ℕ)
    → Holds file offset bs
    → (back : List ℕ) × (drop offset file ≡ bs ++ back)
unfolding Holds
drop-Holds file bs offset (front, back, e, o) = (back, rw (o, e) (drop-append front (bs ++ back)))

load_content-Held :
    (h : Ehdr) (sects : List Shdr) (n : ℕ) (s : Shdr) (l : List Shdr) (c : SectionContent)
    (f : Stream)
    → IsSized h sects n s l c
    → HoldsContent f.bytes s c
    → (r : List ℕ) × (load_content h sects n s l f ≡ ok (c, at f r))
unfolding load_content fseek read_sized
load_content-Held h sects n s l c f (inl (z, p)) w = (f.rest, rw (z, p) refl)
load_content-Held h sects zero s l c f (inr (bs, p, z, nz, q)) w =
    let (back, e) = drop-Holds f.bytes bs s.sh_offset (rw p at w) in
    (back, rw (p, ne→== s.sh_size z, q, e, read_block-append bs back f nz))
load_content-Held h sects (suc n) s [] c f (inr (bs, p, z, nz, q)) w = absurd q
load_content-Held h sects (suc n) s (after ∷ l) c f (inr (bs, p, z, nz, (q, small))) w =
    let (back, e) = drop-Holds f.bytes bs s.sh_offset (rw p at w) in
    (
      back,
      rw (
        p,
        ne→== s.sh_size z,
        q,
        lt→ltb (length bs) (2 ^ 31) small,
        e,
        read_block-append bs back f nz,
      ),
    )

load_contents-Held :
    (h : Ehdr) (sects : List Shdr) (n : ℕ) (l : List Shdr) (cs : List SectionContent) (f : Stream)
    → Sized h sects n l cs
    → Held f.bytes l cs
    → (r : List ℕ) × (load_contents h sects n l f ≡ ok (cs, at f r))
unfolding load_contents
load_contents-Held h sects zero l [] f z w = (f.rest, refl)
load_contents-Held h sects zero l (c ∷ cs) f z w = absurd z
load_contents-Held h sects (suc n) [] cs f z w = absurd z
load_contents-Held h sects (suc n) (s ∷ l) [] f z w = absurd z
load_contents-Held h sects (suc n) (s ∷ l) (c ∷ cs) f (z, zs) (w, ws) =
    let (r, e) = load_content-Held h sects n s l c f z w in
    let (r', e') = load_contents-Held h sects n l cs (at f r) zs ws in (r', rw (e, e', ◌>>=◌))

pub load_section_content-Held :
    (h : Ehdr) (sects : List Shdr) (cs : List SectionContent) (f : Stream)
    → Sized h sects h.e_shnum sects cs
    → Held f.bytes sects cs
    → (r : List ℕ) × (load_section_content h sects f ≡ ok (cs, at f r))
unfolding load_section_content fseek
load_section_content-Held h sects cs f z w =
    load_contents-Held h sects h.e_shnum sects cs (at f (drop h.e_ehsize f.bytes)) z w
