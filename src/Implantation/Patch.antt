-- ===== src/Implantation/Patch.antt =====
-- `correctABSReloc` of Functions/implantation.c: the relocations of type R_ARM_ABS.
pub mod Bytes
pub mod Kept
pub mod Shape
use Prim.Native.Nat.{bit_and, bit_or}
use projet_prog.Common.{
  ℕ, zero, suc, ◌+◌, ◌-◌, ◌/◌, ◌%◌, ◌^◌, none, some, List, [], ◌∷◌, ◌==◌, if◌then◌else◌, get_elem?,
  set,
}
use projet_prog.Common.Words.{add32}
use projet_prog.Stdio.{Outcome, ok, exit, fault}
use projet_prog.Elf.{
  Shdr, Symbol, Rel, SectionContent, Buffer, uninit, null, block, ElfMain, r_sym, r_type,
}
use projet_prog.Sections.{array}

-- `~masque & P` and `masque | P` with `masque` 0, on 32 bits.
unfoldable pub sign_extend : ℕ → ℕ → ℕ
sign_extend width p = if p / 2 ^ (width - 1) == 1 then bit_and (2 ^ 32 - 1 - 0) p else bit_or 0 p

unfoldable pub sign_extend16 : ℕ → ℕ
unfolding sign_extend
sign_extend16 p = sign_extend 16 p

unfoldable pub sign_extend8 : ℕ → ℕ
unfolding sign_extend
sign_extend8 p = sign_extend 8 p

-- *(to_modify + offset) = value, for an unsigned char.
unfoldable pub store_byte : Buffer → ℕ → ℕ → Outcome Buffer
store_byte uninit offset value = fault
store_byte null offset value = fault
store_byte (block bs) offset value = elim (get_elem? bs offset) [
  | none ↦ fault
  | some _ ↦ ok (block (set bs offset (value % 2 ^ 8)))
]

-- The `switch` over the type of a relocation; `own` is the section of the symbol `s`.
unfoldable pub patch : Rel → Symbol → Shdr → Buffer → Outcome Buffer
unfolding add32
patch r s own b =
    if r_type r.r_info == 5
    then store_byte b r.r_offset
        (add32 s.st_value (sign_extend16 ((own.sh_addr + r.r_offset) % 2 ^ 16)))
    else if r_type r.r_info == 8
    then store_byte b r.r_offset
        (add32 s.st_value (sign_extend8 ((own.sh_addr + r.r_offset) % 2 ^ 8)))
    else ok b

-- One round of the inner loop of `correctABSReloc`.
unfoldable pub apply_rel :
    List Shdr → List Symbol → Rel → List SectionContent → Outcome (List SectionContent)
apply_rel sects syms r contents = elim (get_elem? syms (r_sym r.r_info)) [
  | none ↦ fault
  | some s ↦ elim (get_elem? sects s.st_shndx) [
    | none ↦ fault
    | some own ↦ elim (get_elem? contents own.sh_info) [
      | none ↦ fault
      | some c ↦ elim (patch r s own c.section) [
        | ok b ↦ ok (set contents own.sh_info (record c { section = b }))
        | exit ↦ exit
        | fault ↦ fault
      ]
    ]
  ]
]

unfoldable pub apply_rels :
    List Shdr → List Symbol → ℕ → List Rel → List SectionContent → Outcome (List SectionContent)
apply_rels sects syms zero l contents = ok contents
apply_rels sects syms (suc n) [] contents = fault
apply_rels sects syms (suc n) (r ∷ l) contents = elim (apply_rel sects syms r contents) [
  | ok contents' ↦ apply_rels sects syms n l contents'
  | exit ↦ exit
  | fault ↦ fault
]

unfoldable pub apply_tables :
    List Shdr
    → List Symbol
    → ℕ
    → List ℕ
    → List (List Rel)
    → List SectionContent
    → Outcome (List SectionContent)
apply_tables sects syms zero counts tables contents = ok contents
apply_tables sects syms (suc n) [] tables contents = fault
apply_tables sects syms (suc n) (k ∷ counts) [] contents = fault
apply_tables sects syms (suc n) (k ∷ counts) (t ∷ tables) contents =
    elim (apply_rels sects syms k t contents) [
      | ok contents' ↦ apply_tables sects syms n counts tables contents'
      | exit ↦ exit
      | fault ↦ fault
    ]

unfoldable pub correct_abs_reloc : ElfMain → Outcome ElfMain
correct_abs_reloc e =
    elim (apply_tables (array e.sect_header) (array e.sym_table) e.tab_sec_rel.nb_sections
      e.tab_sec_rel.tab_nb (array e.rel_table) e.section_content) [
        | ok contents ↦ ok (record e { section_content = contents })
        | exit ↦ exit
        | fault ↦ fault
      ]
