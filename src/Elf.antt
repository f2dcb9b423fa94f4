-- ===== src/Elf.antt =====
-- structure.h, and the structures of <elf.h> that it is made of. A field is the number that its
-- C integer holds; an array is a list, and a pointer to an array that may be NULL an option.
use projet_prog.Common.{ℕ, ◌/◌, ◌%◌, ◌≡◌, ◌⊎◌, inl, inr, refl, Option, List}

-- e_ident, slot by slot.
pub record Ident : Type 0 where
  pub mag0 : ℕ
  pub mag1 : ℕ
  pub mag2 : ℕ
  pub mag3 : ℕ
  pub class : ℕ
  pub encoding : ℕ
  pub version : ℕ
  pub osabi : ℕ
  pub abiversion : ℕ
  pub pad0 : ℕ
  pub pad1 : ℕ
  pub pad2 : ℕ
  pub pad3 : ℕ
  pub pad4 : ℕ
  pub pad5 : ℕ
  pub pad6 : ℕ

pub record Ehdr : Type 0 where
  pub e_ident : Ident
  pub e_type : ℕ
  pub e_machine : ℕ
  pub e_version : ℕ
  pub e_entry : ℕ
  pub e_phoff : ℕ
  pub e_shoff : ℕ
  pub e_flags : ℕ
  pub e_ehsize : ℕ
  pub e_phentsize : ℕ
  pub e_phnum : ℕ
  pub e_shentsize : ℕ
  pub e_shnum : ℕ
  pub e_shstrndx : ℕ

pub record Shdr : Type 0 where
  pub sh_name : ℕ
  pub sh_type : ℕ
  pub sh_flags : ℕ
  pub sh_addr : ℕ
  pub sh_offset : ℕ
  pub sh_size : ℕ
  pub sh_link : ℕ
  pub sh_info : ℕ
  pub sh_addralign : ℕ
  pub sh_entsize : ℕ

pub record Symbol : Type 0 where
  pub st_name : ℕ
  pub st_value : ℕ
  pub st_size : ℕ
  pub st_info : ℕ
  pub st_other : ℕ
  pub st_shndx : ℕ

pub record Rel : Type 0 where
  pub r_offset : ℕ
  pub r_info : ℕ

-- What a `section` pointer is: never written, NULL, or a block of bytes.
pub data Buffer : Type 0 where
  uninit : Buffer
  null : Buffer
  block : List ℕ → Buffer

pub record SectionContent : Type 0 where
  pub section : Buffer
  pub size : ℕ

-- TableauSectionReloc: the entries of `TabNb` that were written; `nbSections` is their number.
pub record TableauSectionReloc : Type 0 where
  pub tab_nb : List ℕ
  pub nb_sections : ℕ

-- Elf32_Main. `nb_symboles` is `none` where the program stores -1.
pub record ElfMain : Type 0 where
  pub header : Ehdr
  pub sect_header : Option (List Shdr)
  pub sym_table : Option (List Symbol)
  pub rel_table : Option (List (List Rel))
  pub section_content : List SectionContent
  pub tab_sec_rel : TableauSectionReloc
  pub nb_symboles : Option ℕ

abbrev pub sht_symtab : ℕ
sht_symtab = 2

abbrev pub sht_hash : ℕ
sht_hash = 5

abbrev pub sht_dynamic : ℕ
sht_dynamic = 6

abbrev pub sht_rel : ℕ
sht_rel = 9

-- ELF32_R_SYM, ELF32_R_TYPE, ELF32_ST_BIND and ELF32_ST_TYPE of <elf.h>.
abbrev pub r_sym : ℕ → ℕ
r_sym info = info / 256

abbrev pub r_type : ℕ → ℕ
r_type info = info % 256

abbrev pub st_bind : ℕ → ℕ
st_bind info = info / 16

abbrev pub st_type : ℕ → ℕ
st_type info = info % 16

-- To split on a pointer and keep the equation.
pub Buffer-cases : (b : Buffer) → (b ≡ uninit) ⊎ ((b ≡ null) ⊎ ((bs : List ℕ) × (b ≡ block bs)))
Buffer-cases uninit = inl refl
Buffer-cases null = inr (inl refl)
Buffer-cases (block bs) = inr (inr (bs, refl))
