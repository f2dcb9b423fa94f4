-- ===== src/Implantation/Move/Sections.antt =====
-- A symbol before and behind the move, by the name of its section.
use projet_prog.Common.{
  ℕ, ◌^◌, ◌<◌, ◌≡◌, refl, ap, List, [], ◌∷◌, map, none, some, arith, length, get_elem?,
  get_elem?-lt, take, drop, All, Bool-cases, inl, inr, ◌+◌, ◌%◌, ◌≢◌, true, false, ◌==◌, ==→eq,
  eq→==,
}
use projet_prog.Common.Words.{add32}
use projet_prog.Elf.{Shdr, Symbol}
use projet_prog.Names.Cut.{c_string}
use projet_prog.Implantation.Move.{same_name, text_name, data_name, move_symbol}

-- The name of a section in the bytes of a file, cut at 17 characters.
unfoldable pub section_name : List ℕ → Shdr → Shdr → List ℕ
unfolding add32
section_name bytes names own = take 17 (c_string (drop (add32 names.sh_offset own.sh_name) bytes))

-- A symbol, moved by the name of its section.
unfoldable pub moved : List ℕ → Shdr → List Shdr → ℕ → ℕ → Symbol → Symbol
unfolding section_name
moved bytes names sects text data_addr s = elim (get_elem? sects s.st_shndx) [
  | none ↦ s
  | some own ↦ move_symbol text data_addr (section_name bytes names own) s
]

-- A symbol of a section of this name, before and behind the move.
pub data IsMoved (text data_addr : ℕ) (name : List ℕ) (s : Symbol) : Symbol → Type 0 where
  in_text :
      name ≡ b'.' ∷ b't' ∷ b'e' ∷ b'x' ∷ b't' ∷ []
      → IsMoved text data_addr name s (record s { st_value = (s.st_value + text) % 2 ^ 32 })
  in_data :
      name ≡ b'.' ∷ b'd' ∷ b'a' ∷ b't' ∷ b'a' ∷ []
      → IsMoved text data_addr name s (record s { st_value = (s.st_value + data_addr) % 2 ^ 32 })
  elsewhere :
      name ≢ b'.' ∷ b't' ∷ b'e' ∷ b'x' ∷ b't' ∷ []
      → name ≢ b'.' ∷ b'd' ∷ b'a' ∷ b't' ∷ b'a' ∷ []
      → IsMoved text data_addr name s s

-- Each symbol, by the name of its own section, and the one in its place behind the move.
abbrev pub AreMoved : List ℕ → Shdr → List Shdr → ℕ → ℕ → List Symbol → List Symbol → Type 0
AreMoved bytes names sects text data_addr [] [] = Unit {0}
AreMoved bytes names sects text data_addr [] (t ∷ ts) = ⊥
AreMoved bytes names sects text data_addr (s ∷ ss) [] = ⊥
AreMoved bytes names sects text data_addr (s ∷ ss) (t ∷ ts) =
    ((own : Shdr) × (get_elem? sects s.st_shndx ≡ some own)
      × IsMoved text data_addr (section_name bytes names own) s t)
    × AreMoved bytes names sects text data_addr ss ts

same_name→eq : (x y : List ℕ) → same_name x y ≡ true → x ≡ y
unfolding same_name
same_name→eq [] [] h = refl
same_name→eq [] (b ∷ y) h = absurd (ground arith)
same_name→eq (a ∷ x) [] h = absurd (ground arith)
same_name→eq (a ∷ x) (b ∷ y) h = elim (Bool-cases (a == b)) [
  | inl p ↦ rw (==→eq a b p) (ap (◌∷◌ b) (same_name→eq x y (rw p at h)))
  | inr p ↦ absurd (ground (arith, p))
]

same_name_refl : (x : List ℕ) → same_name x x ≡ true
unfolding same_name
same_name_refl [] = refl
same_name_refl (a ∷ x) = rw (eq→== a a refl) (same_name_refl x)

same_name→ne : (x y : List ℕ) → same_name x y ≡ false → x ≢ y
same_name→ne x y h e = let t : same_name x y ≡ true = rw e (same_name_refl y) in cc

move_symbol-IsMoved :
    (text data_addr : ℕ) (name : List ℕ) (s : Symbol)
    → IsMoved text data_addr name s (move_symbol text data_addr name s)
unfolding move_symbol add32
move_symbol-IsMoved text data_addr name s = elim (Bool-cases (same_name name text_name)) [
  | inl p ↦ rw (p, move_symbol) (in_text (same_name→eq name text_name p))
  | inr p ↦ elim (Bool-cases (same_name name data_name)) [
    | inl q ↦ rw (p, q, move_symbol) (in_data (same_name→eq name data_name q))
    | inr q ↦
        rw (p, q, move_symbol)
          (elsewhere (same_name→ne name text_name p) (same_name→ne name data_name q))
  ]
]

pub map-AreMoved :
    (bytes : List ℕ) (names : Shdr) (sects : List Shdr) (text data_addr : ℕ) (ss : List Symbol)
    → All (λ s. s.st_shndx < length sects) ss
    → AreMoved bytes names sects text data_addr ss (map (moved bytes names sects text data_addr) ss)
unfolding moved
map-AreMoved bytes names sects text data_addr [] w = tt
map-AreMoved bytes names sects text data_addr (s ∷ ss) (b, w) =
    let (own, p) = get_elem?-lt sects s.st_shndx b in
    (
      (own, p, rw (p, moved) (move_symbol-IsMoved text data_addr (section_name bytes names own) s)),
      map-AreMoved bytes names sects text data_addr ss w,
    )
