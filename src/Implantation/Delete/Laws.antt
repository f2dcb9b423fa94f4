-- ===== src/Implantation/Delete/Laws.antt =====
-- `delete_rel` removes the relocation sections and nothing else, and keeps the symbols and the
-- table of names with their sections.
use projet_prog.Common.{
  ℕ, zero, suc, ◌+◌, ◌<◌, ◌≤◌, ◌≡◌, inl, inr, refl, sym, ◌∙◌, some, arith, length, get_elem?,
  get_elem?-lt, ◌==◌, true, false, Bool-cases, ltb, ltb→lt, ltb→ge,
}
use projet_prog.Stdio.{Outcome, ok}
use projet_prog.Elf.{Shdr, ElfMain, sht_rel}
use projet_prog.Sections.{array}
use projet_prog.Implantation.Delete.{delete_loop, delete_rel}
use projet_prog.Implantation.Delete.Shift.{Between}
use projet_prog.Implantation.Delete.Rows.{
  core, keep, keep_from, keep_from-suc, keep_from-length, length-rows, get_elem?-rows,
}
use projet_prog.Implantation.Delete.Kept.{
  IsReadyFrom, IsReady, all_rows, SameRow, SameRows, Kept, Kept-refl, Kept-trans,
}
use projet_prog.Implantation.Delete.Left.{
  left, delete_section-left, left-IsReadyFrom, left_round, left-Kept, keep_from-left,
}

-- What the loop makes of a structure from section `i` on.
pub record Deleted (i : ℕ) (e : ElfMain) (o : Outcome ElfMain) : Type 0 where
  pub result : ElfMain
  pub ends : o ≡ ok result
  pub kept : Kept e result
  pub table : all_rows result ≡ keep_from i (all_rows e)

at_end : (f i : ℕ) (e : ElfMain) → IsReadyFrom f e → e.header.e_shnum ≤ i → Deleted i e (ok e)
at_end f i e w h = record {
  result = e;
  ends = refl;
  kept = Kept-refl e;
  table = sym (
      keep_from-length i (all_rows e) (
        omega (
          arith,
          length-rows e.header.e_shnum (array e.sect_header) e.section_content
              (rw w.has_sects w.enough_sects) w.enough_contents,
        )));
}

module _ (f i : ℕ) (s : Shdr) (e : ElfMain) (w : IsReadyFrom f e) (inside : i < e.header.e_shnum)
    (here : get_elem? (array e.sect_header) i ≡ some s) {o : Outcome ElfMain} where
  removing :
      (behind : f ≤ i)
      → (rel : (s.sh_type == sht_rel) ≡ true) → Deleted i (left f i s e w behind inside) o
      → Deleted i e o
  removing behind rel d = record {
    result = d.result;
    ends = d.ends;
    kept = Kept-trans (left-Kept f i s e w behind inside here rel) d.kept;
    table = d.table ∙ keep_from-left f i s e w behind inside here rel;
  }

  passing : (s.sh_type == sht_rel) ≡ false → Deleted (suc i) e o → Deleted i e o
  unfolding core
  passing other d =
      let (c, at_i) =
        get_elem?-rows e.header.e_shnum i (array e.sect_header) e.section_content inside
          w.enough_contents here in
      record {
        result = d.result;
        ends = d.ends;
        kept = d.kept;
        table = d.table ∙ keep_from-suc i (all_rows e) at_i other;
      }

header_at :
    (f i : ℕ) (e : ElfMain)
    → IsReadyFrom f e
    → i < e.header.e_shnum
    → (s : Shdr) × (get_elem? (array e.sect_header) i ≡ some s)
header_at f i e w inside =
    let fit : e.header.e_shnum ≤ length (array e.sect_header) = rw w.has_sects w.enough_sects in
    get_elem?-lt (array e.sect_header) i (omega arith)

delete_loop-Deleted :
    (fuel f i : ℕ) (e : ElfMain)
    → IsReadyFrom f e
    → f ≤ i
    → e.header.e_shnum ≤ i + fuel
    → Deleted i e (delete_loop fuel i e)
unfolding delete_loop
delete_loop-Deleted zero f i e w b h = at_end f i e w (omega arith)
delete_loop-Deleted (suc fuel) f i e w b h = elim (Bool-cases (ltb i e.header.e_shnum)) [
  | inr p ↦ rw (p, delete_loop) (at_end f i e w (ltb→ge i e.header.e_shnum p))
  | inl p ↦
      let inside = ltb→lt i e.header.e_shnum p in
      let (s, here) = header_at f i e w inside in
      elim (Bool-cases (s.sh_type == sht_rel)) [
        | inl r ↦
            rw (p, here, r, delete_section-left f i s e w b inside, delete_loop)
              (removing f i s e w inside here b r (
                delete_loop-Deleted fuel f i (left f i s e w b inside)
                  (left-IsReadyFrom f i s e w b inside) b (left_round f i s e w b inside fuel h)))
        | inr r ↦
            rw (p, here, r, delete_loop)
              (passing f i s e w inside here r
                (delete_loop-Deleted fuel f (suc i) e w (omega arith) (omega arith)))
      ]
]

-- The rounds through the sections in front of the first relocation section, of which `n` are left.
delete_loop_plain :
    (n fuel f i : ℕ) (e : ElfMain)
    → IsReadyFrom f e
    → Between (λ s. (s.sh_type == sht_rel) ≡ false) 0 f (array e.sect_header)
    → f ≤ i + n
    → e.header.e_shnum ≤ i + fuel
    → Deleted i e (delete_loop fuel i e)
unfolding delete_loop
delete_loop_plain zero fuel f i e w q k h = delete_loop-Deleted fuel f i e w (omega arith) h
delete_loop_plain (suc n) zero f i e w q k h = at_end f i e w (omega arith)
delete_loop_plain (suc n) (suc fuel) f i e w q k h = elim (Bool-cases (ltb i f)) [
  | inr p ↦ delete_loop-Deleted (suc fuel) f i e w (ltb→ge i f p) h
  | inl p ↦ elim (Bool-cases (ltb i e.header.e_shnum)) [
    | inr p' ↦ rw (p', delete_loop) (at_end f i e w (ltb→ge i e.header.e_shnum p'))
    | inl p' ↦
        let inside = ltb→lt i e.header.e_shnum p' in
        let (s, here) = header_at f i e w inside in
        let other = q i s (omega arith) (ltb→lt i f p) here in
        rw (p', here, other, delete_loop)
          (passing f i s e w inside here other
            (delete_loop_plain n fuel f (suc i) e w q (omega arith) (omega arith)))
  ]
]

-- `delete_rel` ends, with a table whose rows, symbols and table of names are those of before.
pub delete_rel_result :
    (e : ElfMain)
    → IsReady e
    → (e' : ElfMain) × (delete_rel e ≡ ok e')
      × (all_rows e' ≡ keep (all_rows e))
      × SameRows (all_rows e) (all_rows e') (array e.sym_table) (array e'.sym_table)
      × SameRow (all_rows e) (all_rows e') e.header.e_shstrndx e'.header.e_shstrndx
unfolding delete_rel keep_from
delete_rel_result e w =
    let d =
      delete_loop_plain w.first e.header.e_shnum w.first 0 e w.ready w.plain (omega arith)
        (omega arith) in
    (d.result, d.ends, d.table, d.kept.symbols, d.kept.names)
