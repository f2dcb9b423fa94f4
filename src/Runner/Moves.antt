-- ===== src/Runner/Moves.antt =====
-- What `correct_sym_table` and `correct_abs_reloc` leave is as coherent as what they were given.
use projet_prog.Symbols.{find_symtab}
use projet_prog.Common.{
  ℕ, ◌*◌, ◌≡◌, refl, sym, ap, ◌∙◌, subst, List, Option, none, some, length, All,
}
use projet_prog.Stdio.{M, pure, ◌>>=◌, ok}
use projet_prog.Stdio.Gives.{Gives, pure-Gives, bind-Gives}
use projet_prog.Elf.{Shdr, Symbol, ElfMain}
use projet_prog.Header.RoundTrip.{IsEhdr}
use projet_prog.Sections.{array}
use projet_prog.Symbols.RoundTrip.{IsSymbol}
use projet_prog.Contents.Held.{Sized}
use projet_prog.Writer.{TempTab}
use projet_prog.Writer.Layout.{Laid}
use projet_prog.Writer.Tabs.{tabs_from, written_all}
use projet_prog.Implantation.Move.{correct_symbols, correct_sym_table}
use projet_prog.Implantation.Patch.{correct_abs_reloc}
use projet_prog.Implantation.Patch.Shape.{SameShape, SameShape-refl, length-SameShape}
use projet_prog.Implantation.Patch.Kept.{correct_abs_reloc-SameShape}
use projet_prog.Fits.Changed.{Moved, correct_symbols-Gives}
use projet_prog.Runner.Alike.{written_all-SameShape, Sized-SameShape, Laid-SameShape}
use projet_prog.Runner.Coherent.{SymbolsFit, no_table, table, saved_contents, IsCoherent}

-- As many symbols, which fit their types.
unfoldable pub SameTable : Option (List Symbol) → Option (List Symbol) → Type 0
SameTable none t = t ≡ none
SameTable (some l) t = (l' : List Symbol) × (t ≡ some l') × Moved l l'

pub record Alike (e e' : ElfMain) : Type 0 where
  pub same_header : e'.header ≡ e.header
  pub same_rows : e'.sect_header ≡ e.sect_header
  pub same_count : e'.nb_symboles ≡ e.nb_symboles
  pub shape : SameShape e.section_content e'.section_content
  pub tables : SameTable e.sym_table e'.sym_table

SameTable-refl : (t : Option (List Symbol)) → All IsSymbol (array t) → SameTable t t
unfolding SameTable
SameTable-refl none w = refl
SameTable-refl (some l) w = (l, refl, (w, refl))

SameTable-length :
    (t t' : Option (List Symbol)) → SameTable t t' → length (array t') ≡ length (array t)
unfolding SameTable
SameTable-length none t' w = ap (λ t. length (array t)) w
SameTable-length (some l) t' (l', p, (_, k)) = ap (λ t. length (array t)) p ∙ k

same_search :
    (e e' : ElfMain)
    → Alike e e'
    → find_symtab e'.header.e_shnum (array e'.sect_header)
      ≡ find_symtab e.header.e_shnum (array e.sect_header)
same_search e e' a =
    ap (λ h. find_symtab h.e_shnum (array e'.sect_header)) a.same_header
    ∙ ap (λ t. find_symtab e.header.e_shnum (array t)) a.same_rows

SymbolsFit-Alike : (e e' : ElfMain) → Alike e e' → SymbolsFit e → SymbolsFit e'
unfolding SameTable
SymbolsFit-Alike e e' a (no_table p q n) =
    no_table (same_search e e' a ∙ p) (rw q at a.tables) (a.same_count ∙ n)
SymbolsFit-Alike e e' a (table s l p q n z small fits) =
    let (l', t, (fits', k)) : SameTable (some l) e'.sym_table = rw q at a.tables in
    table s l' (same_search e e' a ∙ p) t (a.same_count ∙ n ∙ ap some (sym k))
      (z ∙ ap (λ n. 16 * n) (sym k)) small fits'

same_saved : (e e' : ElfMain) → Alike e e' → SameShape (saved_contents e) (saved_contents e')
same_saved e e' a =
    subst
      (λ t.
        SameShape (saved_contents e)
          (written_all (array e'.sym_table) (array t) e'.section_content))
      (sym a.same_rows)
      (written_all-SameShape (array e.sym_table) (array e'.sym_table) (array e.sect_header)
        e.section_content e'.section_content (SameTable-length e.sym_table e'.sym_table a.tables)
        a.shape)

pub IsCoherent-Alike :
    (qsort : List TempTab → List TempTab) (e e' : ElfMain) (sects : List Shdr)
    → Alike e e'
    → IsCoherent qsort e sects
    → IsCoherent qsort e' sects
IsCoherent-Alike qsort e e' sects a w = record {
  ehdr = subst IsEhdr (sym a.same_header) w.ehdr;
  table = a.same_rows ∙ w.table;
  count = ap (λ h. h.e_shnum) a.same_header ∙ w.count;
  rows = w.rows;
  row_size = ap (λ h. h.e_shentsize) a.same_header ∙ w.row_size;
  symbols = SymbolsFit-Alike e e' a w.symbols;
  contents = length-SameShape e.section_content e'.section_content a.shape ∙ w.contents;
  sized =
      subst (λ h. Sized h sects h.e_shnum sects (saved_contents e')) (sym a.same_header)
        (Sized-SameShape e.header sects e.header.e_shnum sects (saved_contents e)
          (saved_contents e') (same_saved e e' a) w.sized);
  laid =
      subst (λ h. Laid e' (array e'.sym_table) 52 (qsort (tabs_from 0 sects)) h.e_shoff)
        (sym a.same_header)
        (Laid-SameShape e e' (array e.sym_table) (array e'.sym_table) 52 e.header.e_shoff
          (qsort (tabs_from 0 sects)) a.same_rows a.shape
          (SameTable-length e.sym_table e'.sym_table a.tables) w.laid);
}

pub SymbolsFit-All : (e : ElfMain) → SymbolsFit e → All IsSymbol (array e.sym_table)
SymbolsFit-All e (no_table p q n) = rw q tt
SymbolsFit-All e (table s l p q n z small fits) = rw q fits

Alike-refl : (e : ElfMain) → All IsSymbol (array e.sym_table) → Alike e e
Alike-refl e w = record {
  same_header = refl;
  same_rows = refl;
  same_count = refl;
  shape = SameShape-refl e.section_content;
  tables = SameTable-refl e.sym_table w;
}

table-Moved :
    (t : Option (List Symbol)) (l : List Symbol)
    → Moved (array t) l
    → SameTable t (elim t as (λ _. Option (List Symbol)) [ none ↦ none | some _ ↦ some l ])
unfolding SameTable
table-Moved none l w = refl
table-Moved (some _) l w = (l, refl, w)

counted_moves :
    (e : ElfMain) (text data_addr : ℕ) (o : Option ℕ)
    → All IsSymbol (array e.sym_table)
    → Gives
        (elim o as (λ _. M ElfMain) [
          | none ↦ pure e
          | some n ↦
              correct_symbols e.header (array e.sect_header) text data_addr n (array e.sym_table)
              >>= λ l.
                  pure (record e { sym_table = elim e.sym_table [ none ↦ none | some _ ↦ some l ] })
        ])
        (Alike e)
counted_moves e text data_addr none w = pure-Gives (Alike e) e (Alike-refl e w)
counted_moves e text data_addr (some n) w =
    bind-Gives (correct_symbols e.header (array e.sect_header) text data_addr n (array e.sym_table))
      _
      (correct_symbols-Gives e.header (array e.sect_header) text data_addr n (array e.sym_table) w)
      λ l r. pure-Gives (Alike e) _ (record {
        same_header = refl;
        same_rows = refl;
        same_count = refl;
        shape = SameShape-refl e.section_content;
        tables = table-Moved e.sym_table l r;
      })

pub correct_sym_table-Alike :
    (e : ElfMain) (text data_addr : ℕ)
    → All IsSymbol (array e.sym_table)
    → Gives (correct_sym_table e text data_addr) (Alike e)
unfolding correct_sym_table
correct_sym_table-Alike e text data_addr w = counted_moves e text data_addr e.nb_symboles w

pub correct_abs_reloc-Alike :
    (e : ElfMain) {e' : ElfMain}
    → All IsSymbol (array e.sym_table)
    → correct_abs_reloc e ≡ ok e'
    → Alike e e'
correct_abs_reloc-Alike e {e'} w h =
    let (same, shape) = correct_abs_reloc-SameShape e h in
    record {
      same_header = ap (λ x. x.header) same;
      same_rows = ap (λ x. x.sect_header) same;
      same_count = ap (λ x. x.nb_symboles) same;
      shape = shape;
      tables =
          subst (SameTable e.sym_table) (sym (ap (λ x. x.sym_table) same))
            (SameTable-refl e.sym_table w);
    }
