-- ===== src/Fits/Deleted.antt =====
-- `delete_rel` leaves a structure that fits.
use projet_prog.Common.{
  Bool, ℕ, zero, suc, ◌-◌, ◌≡◌, refl, sym, ◌∙◌, subst, List, [], ◌∷◌, Option, none, some, arith,
  length, All, get_elem?, Bool-cases, Option-cases, inl, inr, if◌then◌else◌, ltb, ◌==◌,
}
use projet_prog.Common.Words.{IsU32, sub32, sub16}
use projet_prog.Stdio.{ok}
use projet_prog.Stdio.Outcomes.{Outcome-cases, ok-injective, ok_not_exit, ok_not_fault}
use projet_prog.Elf.{Shdr, Symbol, SectionContent, ElfMain, sht_rel}
use projet_prog.Sections.{array, shdr_words}
use projet_prog.Sections.RoundTrip.{IsShdr}
use projet_prog.Symbols.RoundTrip.{IsSymbol}
use projet_prog.Implantation.Delete.{
  shift_down, renumber, map_first, renumber_symbol, rounds, delete_content, removed, delete_section,
  delete_loop, delete_rel,
}
use projet_prog.Implantation.Delete.Shift.{length-shift_down, All-shift_down}
use projet_prog.Implantation.Delete.Left.{length-map_first}
use projet_prog.Fits.{Fits}
use projet_prog.Fits.Counts.{delete_content-length}

All-map_first :
    {A : Type 0} (P : A → Type 0) (f : A → A) (n : ℕ) (l : List A)
    → ((x : A) → P x → P (f x))
    → All P l
    → All P (map_first f n l)
unfolding map_first
All-map_first P f zero l g w = w
All-map_first P f (suc n) [] g w = tt
All-map_first P f (suc n) (x ∷ l) g (p, w) = (g x p, All-map_first P f n l g w)

if_fits : (b : Bool) (x y : ℕ) → IsU32 x → IsU32 y → IsU32 (if b then x else y)
if_fits b x y p q = ground (arith, p, q)

sub32-IsU32 : (x y : ℕ) → IsU32 (sub32 x y)
unfolding sub32
sub32-IsU32 x y = omega arith

renumber-IsShdr : (i size offset : ℕ) (s : Shdr) → IsShdr s → IsShdr (renumber i size offset s)
unfolding renumber IsShdr shdr_words
renumber-IsShdr i size offset s (name, (type, (flags, (addr, (off, (len, (link, rest))))))) = (
  name,
  (
    type,
    (
      flags,
      (
        addr,
        (
          if_fits _ _ _ (sub32-IsU32 s.sh_offset size) off,
          (len, (if_fits _ _ _ (sub32-IsU32 s.sh_link 1) link, rest)),
        ),
      ),
    ),
  ),
)

renumber_symbol-IsSymbol : (i : ℕ) (s : Symbol) → IsSymbol s → IsSymbol (renumber_symbol i s)
unfolding renumber_symbol sub16
renumber_symbol-IsSymbol i s w = record {
  name = w.name;
  value = w.value;
  size = w.size;
  shndx = ground (arith, w.shndx);
}

-- The symbols that are renumbered where there is a table.
renumbered :
    (t : Option (List Symbol)) (i n : ℕ)
    → All IsSymbol (array t)
    → All IsSymbol (
        array (elim t as (λ _. Option (List Symbol)) [
          | none ↦ none
          | some l ↦ some (map_first (renumber_symbol i) n l)
        ]))
      × (length (
            array (elim t as (λ _. Option (List Symbol)) [
              | none ↦ none
              | some l ↦ some (map_first (renumber_symbol i) n l)
            ]))
          ≡ length (array t))
renumbered none i n w = (tt, refl)
renumbered (some l) i n w = (
  All-map_first IsSymbol (renumber_symbol i) n l (renumber_symbol-IsSymbol i) w,
  length-map_first (renumber_symbol i) n l,
)

removed-Fits :
    (i : ℕ) (s : Shdr) (contents : List SectionContent) (e : ElfMain)
    → Fits e
    → length contents ≡ length e.section_content
    → Fits (removed i s contents e)
unfolding removed
removed-Fits i s contents e w k =
    let n = e.header.e_shnum in
    let moved = shift_down (n - suc i) i (array e.sect_header) in
    let (type, (machine, (ehsize, (phentsize, (phnum, (shentsize, (shnum, (shstrndx, _)))))))) =
      w.halves_fit in
    let (version, (entry, (phoff, (shoff, (flags, _))))) = w.words_fit in
    let both = renumbered e.sym_table i (rounds e.nb_symboles) w.symbols in
    record {
      halves_fit = (
        type,
        (machine, (ehsize, (phentsize, (phnum, (shentsize, (omega arith, (ground arith, tt))))))),
      );
      words_fit =
          (version, (entry, (phoff, (sub32-IsU32 e.header.e_shoff s.sh_size, (flags, tt)))));
      rows =
          All-map_first IsShdr (renumber i s.sh_size s.sh_offset) n moved
            (renumber-IsShdr i s.sh_size s.sh_offset)
            (All-shift_down IsShdr (n - suc i) i (array e.sect_header) w.rows);
      symbols = both.0;
      enough_rows = omega (
        arith,
        w.enough_rows,
        length-map_first (renumber i s.sh_size s.sh_offset) n moved,
        length-shift_down (n - suc i) i (array e.sect_header),
      );
      enough_contents = omega (arith, w.enough_contents, k);
      counted = w.counted ∙ sym both.1;
    }

delete_section-Fits :
    (i : ℕ) (s : Shdr) (e : ElfMain) {e' : ElfMain}
    → Fits e
    → delete_section i s e ≡ ok e'
    → Fits e'
unfolding delete_section
delete_section-Fits i s e w h =
    elim (Outcome-cases (delete_content e.header.e_shnum i e.section_content)) [
      | inl (contents, p) ↦ subst Fits (ok-injective (rw (p, delete_section) at h)) (
          removed-Fits i s contents e w
            (delete_content-length e.header.e_shnum i e.section_content p))
      | inr (inl p) ↦ absurd (ok_not_exit (rw (p, delete_section) at h))
      | inr (inr p) ↦ absurd (ok_not_fault (rw (p, delete_section) at h))
    ]

delete_loop-Fits :
    (fuel i : ℕ) (e : ElfMain) {e' : ElfMain} → Fits e → delete_loop fuel i e ≡ ok e' → Fits e'
unfolding delete_loop
delete_loop-Fits zero i e w h = subst Fits (ok-injective h) w
delete_loop-Fits (suc fuel) i e w h = elim (Bool-cases (ltb i e.header.e_shnum)) [
  | inr p ↦ subst Fits (ok-injective (rw (p, delete_loop) at h)) w
  | inl p ↦ elim (Option-cases (get_elem? (array e.sect_header) i)) [
    | inl q ↦ absurd (ok_not_fault (rw (p, q, delete_loop) at h))
    | inr (s, q) ↦ elim (Bool-cases (s.sh_type == sht_rel)) [
      | inr r ↦ delete_loop-Fits fuel (suc i) e w (rw (p, q, r, delete_loop) at h)
      | inl r ↦ elim (Outcome-cases (delete_section i s e)) [
        | inl (e1, t) ↦
            delete_loop-Fits fuel i e1 (delete_section-Fits i s e w t)
              (rw (p, q, r, t, delete_loop) at h)
        | inr (inl t) ↦ absurd (ok_not_exit (rw (p, q, r, t, delete_loop) at h))
        | inr (inr t) ↦ absurd (ok_not_fault (rw (p, q, r, t, delete_loop) at h))
      ]
    ]
  ]
]

pub delete_rel-Fits : (e : ElfMain) {e' : ElfMain} → Fits e → delete_rel e ≡ ok e' → Fits e'
unfolding delete_rel
delete_rel-Fits e w h = delete_loop-Fits e.header.e_shnum 0 e w h
