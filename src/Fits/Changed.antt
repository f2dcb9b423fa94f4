-- ===== src/Fits/Changed.antt =====
-- `correct_sym_table` and `correct_abs_reloc` leave a structure that fits.
use projet_prog.Common.{
  ℕ, zero, suc, ◌≡◌, refl, sym, ◌∙◌, subst, List, [], ◌∷◌, Option, none, some, arith, length, All,
  get_elem?, Bool-cases, Option-cases, inl, inr,
}
use projet_prog.Common.Words.{add32}
use projet_prog.Stdio.{M, ok}
use projet_prog.Stdio.Gives.{Gives, pure-Gives, bind-Gives, any_Gives}
use projet_prog.Elf.{Ehdr, Shdr, Symbol, ElfMain}
use projet_prog.Sections.{array}
use projet_prog.Symbols.RoundTrip.{IsSymbol}
use projet_prog.Names.{print_name}
use projet_prog.Implantation.Move.{
  same_name, text_name, data_name, move_symbol, element, correct_symbol, correct_symbols,
  correct_sym_table,
}
use projet_prog.Implantation.Patch.{correct_abs_reloc}
use projet_prog.Implantation.Patch.Shape.{length-SameShape}
use projet_prog.Implantation.Patch.Kept.{correct_abs_reloc-SameShape}
use projet_prog.Fits.{Fits}
use projet_prog.Fits.Fields.{crash-Gives}

move_symbol-IsSymbol :
    (text data_addr : ℕ) (name : List ℕ) (s : Symbol)
    → IsSymbol s
    → IsSymbol (move_symbol text data_addr name s)
unfolding move_symbol add32
move_symbol-IsSymbol text data_addr name s w = elim (Bool-cases (same_name name text_name)) [
  | inl p ↦ rw p (record { name = w.name; value = omega arith; size = w.size; shndx = w.shndx })
  | inr p ↦ elim (Bool-cases (same_name name data_name)) [
    | inl q ↦
        rw (p, q) (record { name = w.name; value = omega arith; size = w.size; shndx = w.shndx })
    | inr q ↦ rw (p, q) w
  ]
]

element-Gives :
    {A : Type 0} (o : Option A) (k : A → M Symbol) (P : Symbol → Type 0)
    → ((a : A) → Gives (k a) P)
    → Gives (element o k) P
element-Gives none k P g = crash-Gives P
element-Gives (some a) k P g = g a

correct_symbol-Gives :
    (h : Ehdr) (sects : List Shdr) (text data_addr : ℕ) (s : Symbol)
    → IsSymbol s
    → Gives (correct_symbol h sects text data_addr s) IsSymbol
unfolding correct_symbol
correct_symbol-Gives h sects text data_addr s w =
    element-Gives (get_elem? sects h.e_shstrndx) _ IsSymbol λ names.
      element-Gives (get_elem? sects s.st_shndx) _ IsSymbol λ own.
        any_Gives (print_name (add32 names.sh_offset own.sh_name)) _
          λ name. pure-Gives IsSymbol _ (move_symbol-IsSymbol text data_addr name s w)

abbrev pub Moved : List Symbol → List Symbol → Type 0
Moved l l' = All IsSymbol l' × (length l' ≡ length l)

pub correct_symbols-Gives :
    (h : Ehdr) (sects : List Shdr) (text data_addr n : ℕ) (l : List Symbol)
    → All IsSymbol l
    → Gives (correct_symbols h sects text data_addr n l) (Moved l)
unfolding correct_symbols
correct_symbols-Gives h sects text data_addr zero l w = pure-Gives (Moved l) l (w, refl)
correct_symbols-Gives h sects text data_addr (suc n) [] w = crash-Gives (Moved [])
correct_symbols-Gives h sects text data_addr (suc n) (s ∷ l) (p, w) =
    bind-Gives (correct_symbol h sects text data_addr s) _
      (correct_symbol-Gives h sects text data_addr s p)
      λ s' q.
        bind-Gives (correct_symbols h sects text data_addr n l) _
          (correct_symbols-Gives h sects text data_addr n l w)
          λ l' r. pure-Gives (Moved (s ∷ l)) (s' ∷ l') ((q, r.0), omega (arith, r.1))

-- A table that is replaced where there is one.
replaced :
    (t : Option (List Symbol)) (l : List Symbol)
    → Moved (array t) l
    → Moved (array t) (array (elim t [ none ↦ none | some _ ↦ some l ]))
replaced none l w = (tt, refl)
replaced (some _) l w = w

pub correct_sym_table-Fits :
    (e : ElfMain) (text data_addr : ℕ) → Fits e → Gives (correct_sym_table e text data_addr) Fits
unfolding correct_sym_table
correct_sym_table-Fits e text data_addr w = elim (Option-cases e.nb_symboles) [
  | inl p ↦ rw (p, correct_sym_table) (pure-Gives Fits e w)
  | inr (n, p) ↦
      rw (p, correct_sym_table)
        (bind-Gives
          (correct_symbols e.header (array e.sect_header) text data_addr n (array e.sym_table)) _
          (correct_symbols-Gives e.header (array e.sect_header) text data_addr n (array e.sym_table)
            w.symbols)
          λ l r.
            let both = replaced e.sym_table l r in
            pure-Gives Fits _ (record {
              halves_fit = w.halves_fit;
              words_fit = w.words_fit;
              rows = w.rows;
              symbols = both.0;
              enough_rows = w.enough_rows;
              enough_contents = w.enough_contents;
              counted = w.counted ∙ sym both.1;
            }))
]

pub correct_abs_reloc-Fits :
    (e : ElfMain) {e' : ElfMain} → Fits e → correct_abs_reloc e ≡ ok e' → Fits e'
correct_abs_reloc-Fits e {e'} w h =
    let (same, shape) = correct_abs_reloc-SameShape e h in
    let counts = length-SameShape e.section_content e'.section_content shape in
    subst Fits (sym same) (record {
      halves_fit = w.halves_fit;
      words_fit = w.words_fit;
      rows = w.rows;
      symbols = w.symbols;
      enough_rows = w.enough_rows;
      enough_contents = omega (arith, counts, w.enough_contents);
      counted = w.counted;
    })
