-- ===== src/Implantation/Move/Moved.antt =====
-- What `correct_sym_table` does to each symbol, and when it reads behind the section headers.
use mathlib.Core.Option.{some-injective}
use projet_prog.Common.{
  ℕ, zero, suc, ◌^◌, ◌<◌, ◌≤◌, ◌≡◌, refl, ap, ◌∙◌, List, [], ◌∷◌, map, Option, none, some, arith,
  length, get_elem?, get_elem?-lt, All, Bool-cases, inl, inr, ltb, ltb→lt, ltb→ge,
}
use projet_prog.Common.Words.{add32}
use projet_prog.Stdio.{M, bind_ok, ◌>>=◌, pure, Stream, ok, fault}
use projet_prog.Elf.{Ehdr, Shdr, Symbol, ElfMain}
use projet_prog.Sections.{array}
use projet_prog.Names.Cut.{print_name-c_string}
use projet_prog.Implantation.Move.{correct_symbol, correct_symbols, correct_sym_table}
use projet_prog.Implantation.Move.Sections.{section_name, moved, AreMoved, map-AreMoved}

-- The name of every section stands at an offset that is not negative as an int.
abbrev pub AreNamed : Shdr → List Shdr → Type 0
AreNamed names sects = All (λ own. add32 names.sh_offset own.sh_name < 2 ^ 31) sects

get_elem?-AreNamed :
    (names : Shdr) (sects : List Shdr) (i : ℕ) {own : Shdr}
    → AreNamed names sects
    → get_elem? sects i ≡ some own
    → add32 names.sh_offset own.sh_name < 2 ^ 31
get_elem?-AreNamed names [] i w e = absurd cc
get_elem?-AreNamed names (x ∷ l) zero {own} (p, w) e = rw (some-injective x own e) at p
get_elem?-AreNamed names (x ∷ l) (suc i) (p, w) e = get_elem?-AreNamed names l i w e

get_elem?-ge : {A : Type 0} (l : List A) (i : ℕ) → length l ≤ i → get_elem? l i ≡ none
get_elem?-ge [] i h = refl
get_elem?-ge (x ∷ l) zero h = absurd (omega arith)
get_elem?-ge (x ∷ l) (suc i) h = get_elem?-ge l i (omega arith)

module _ (h : Ehdr) (names : Shdr) (sects : List Shdr) (text data_addr : ℕ)
    (strings : get_elem? sects h.e_shstrndx ≡ some names) (named : AreNamed names sects) where
  correct_symbol-moved :
      (s : Symbol) (f : Stream)
      → s.st_shndx < length sects
      → (f' : Stream) × (correct_symbol h sects text data_addr s f
          ≡ ok (moved f.bytes names sects text data_addr s, f'))
        × (f'.bytes ≡ f.bytes)
  unfolding correct_symbol section_name moved
  correct_symbol-moved s f b =
      let (own, p) = get_elem?-lt sects s.st_shndx b in
      let (f', q, t) =
        print_name-c_string (add32 names.sh_offset own.sh_name) f
          (get_elem?-AreNamed names sects s.st_shndx named p) in
      (f', rw (strings, p, q, moved, ◌>>=◌), t)

  correct_symbol_fault :
      (s : Symbol) (f : Stream)
      → length sects ≤ s.st_shndx
      → correct_symbol h sects text data_addr s f ≡ fault
  unfolding correct_symbol
  correct_symbol_fault s f b = rw (strings, get_elem?-ge sects s.st_shndx b)

  correct_symbols-moved :
      (l : List Symbol) (f : Stream)
      → All (λ s. s.st_shndx < length sects) l
      → (f' : Stream) × (correct_symbols h sects text data_addr (length l) l f
          ≡ ok (map (moved f.bytes names sects text data_addr) l, f'))
        × (f'.bytes ≡ f.bytes)
  unfolding correct_symbols
  correct_symbols-moved [] f w = (f, refl, refl)
  correct_symbols-moved (s ∷ l) f (p, w) =
      let (f1, e1, b1) = correct_symbol-moved s f p in
      let (f2, e2, b2) = correct_symbols-moved l f1 w in (f2, rw (e1, e2, b1, ◌>>=◌), b2 ∙ b1)

  correct_symbols_fault :
      (l : List Symbol) (f : Stream) (i : ℕ) {s : Symbol}
      → get_elem? l i ≡ some s
      → length sects ≤ s.st_shndx
      → correct_symbols h sects text data_addr (length l) l f ≡ fault
  unfolding correct_symbols
  correct_symbols_fault [] f i e b = absurd cc
  correct_symbols_fault (x ∷ l) f zero {s} e b =
      let far : length sects ≤ x.st_shndx = rw (some-injective x s e) b in
      rw (correct_symbol_fault x f far, ◌>>=◌)
  correct_symbols_fault (x ∷ l) f (suc i) e b = elim (Bool-cases (ltb x.st_shndx (length sects))) [
    | inl p ↦
        let (f1, e1, _) = correct_symbol-moved x f (ltb→lt x.st_shndx (length sects) p) in
        rw (e1, correct_symbols_fault l f1 i e b, ◌>>=◌)
    | inr p ↦ rw (correct_symbol_fault x f (ltb→ge x.st_shndx (length sects) p), ◌>>=◌)
  ]

-- The symbols of a program, if it has any, replaced.
abbrev with_symbols : ElfMain → Option (List Symbol) → List Symbol → ElfMain
with_symbols e o l = record e { sym_table = elim o [ none ↦ none | some _ ↦ some l ] }

abbrev all_symbols : ElfMain → ℕ → ℕ → ℕ → M (List Symbol)
all_symbols e text data_addr n =
    correct_symbols e.header (array e.sect_header) text data_addr n (array e.sym_table)

counted :
    (e : ElfMain) (text data_addr n : ℕ)
    → e.nb_symboles ≡ some n
    → (f : Stream)
    → correct_sym_table e text data_addr f
      ≡ (all_symbols e text data_addr n >>= λ l. pure (with_symbols e e.sym_table l)) f
unfolding correct_sym_table
counted e text data_addr n c f = ap (λ o. go o f) c
  where
    go : Option ℕ → M ElfMain
    go none = pure e
    go (some k) = all_symbols e text data_addr k >>= λ l. pure (with_symbols e e.sym_table l)

correct_sym_table-map :
    (e : ElfMain) (names : Shdr) (sects : List Shdr) (syms : List Symbol) (text data_addr : ℕ)
    (f : Stream)
    → e.sect_header ≡ some sects
    → e.sym_table ≡ some syms
    → e.nb_symboles ≡ some (length syms)
    → get_elem? sects e.header.e_shstrndx ≡ some names
    → AreNamed names sects
    → All (λ s. s.st_shndx < length sects) syms
    → (f' : Stream) × (correct_sym_table e text data_addr f
        ≡ ok (
          record e { sym_table = some (map (moved f.bytes names sects text data_addr) syms) },
          f',
        ))
correct_sym_table-map e names sects syms text data_addr f a b c p w v =
    let (f', q, _) = correct_symbols-moved e.header names sects text data_addr p w syms f v in
    (
      f',
      counted e text data_addr (length syms) c f
          ∙ bind_ok (all_symbols e text data_addr (length syms)) _ (rw (a, b) q) (
              ap
                (λ o.
                  ok (with_symbols e o (map (moved f.bytes names sects text data_addr) syms), f'))
                b),
    )

-- Let the headers of the program hold, at e_shstrndx, that of the section names, let the offset of
-- every name be no negative int, and the table of symbols have the number of symbols that the
-- program counts. If every symbol belongs to a section that there is, `correct_sym_table` succeeds.
-- To the value of a symbol it adds the first address if the section has the name ".text", the second
-- one if it has the name ".data", and nothing else; it changes nothing else of any symbol.
pub correct_sym_table-AreMoved :
    (e : ElfMain) (names : Shdr) (sects : List Shdr) (syms : List Symbol) (text data_addr : ℕ)
    (f : Stream)
    → e.sect_header ≡ some sects
    → e.sym_table ≡ some syms
    → e.nb_symboles ≡ some (length syms)
    → get_elem? sects e.header.e_shstrndx ≡ some names
    → AreNamed names sects
    → All (λ s. s.st_shndx < length sects) syms
    → (f' : Stream) × (syms' : List Symbol) × (correct_sym_table e text data_addr f
        ≡ ok (record e { sym_table = some syms' }, f'))
      × AreMoved f.bytes names sects text data_addr syms syms'
correct_sym_table-AreMoved e names sects syms text data_addr f a b c p w v =
    let (f', q) = correct_sym_table-map e names sects syms text data_addr f a b c p w v in
    (
      f',
      map (moved f.bytes names sects text data_addr) syms,
      q,
      map-AreMoved f.bytes names sects text data_addr syms v,
    )

-- Of such a program, if the section index of some symbol is not below the number of headers, as
-- SHN_ABS is, `correct_sym_table` reads behind them.
pub correct_sym_table_fault :
    (e : ElfMain) (names : Shdr) (sects : List Shdr) (syms : List Symbol) (text data_addr : ℕ)
    (f : Stream) (i : ℕ) (s : Symbol)
    → e.sect_header ≡ some sects
    → e.sym_table ≡ some syms
    → e.nb_symboles ≡ some (length syms)
    → get_elem? sects e.header.e_shstrndx ≡ some names
    → AreNamed names sects
    → get_elem? syms i ≡ some s
    → length sects ≤ s.st_shndx
    → correct_sym_table e text data_addr f ≡ fault
correct_sym_table_fault e names sects syms text data_addr f i s a b c p w g o =
    let q : all_symbols e text data_addr (length syms) f ≡ fault =
      rw (a, b) (correct_symbols_fault e.header names sects text data_addr p w syms f i g o) in
    counted e text data_addr (length syms) c f ∙ rw (q, ◌>>=◌)
