-- ===== src/Header/RoundTrip.antt =====
-- The ELF header that `write_header` writes, read back by `load_header`.
use mathlib.Core.List.{append_assoc}
use projet_prog.Common.{ℕ, ◌≡◌, ap, ◌∙◌, List, ◌++◌, true, eq→==}
use projet_prog.Common.Words.{IsU16, IsU32, put16, put32, get16-put16, get32-put32}
use projet_prog.Stdio.{
  ◌>>=◌, Stream, Dest, ok, at, flatten, before-write_chunks, rewind, chain, flatten-chain,
}
use projet_prog.Elf.{Ident, Ehdr}
use projet_prog.Header.{
  load_half, load_word, load_addr, is_magic, load_ident, load_fields, load_header, addr_bytes,
  ident_chunks, field_chunks, write_header,
}

-- A 32-bit ELF header: the magic bytes, class 1, and fields that fit their C types.
pub record IsEhdr (h : Ehdr) : Type 0 where
  pub magic : is_magic h.e_ident.mag0 h.e_ident.mag1 h.e_ident.mag2 h.e_ident.mag3 ≡ true
  pub elf32 : h.e_ident.class ≡ 1
  pub type : IsU16 h.e_type
  pub machine : IsU16 h.e_machine
  pub version : IsU32 h.e_version
  pub entry : IsU32 h.e_entry
  pub phoff : IsU32 h.e_phoff
  pub shoff : IsU32 h.e_shoff
  pub flags : IsU32 h.e_flags
  pub ehsize : IsU16 h.e_ehsize
  pub phentsize : IsU16 h.e_phentsize
  pub phnum : IsU16 h.e_phnum
  pub shentsize : IsU16 h.e_shentsize
  pub shnum : IsU16 h.e_shnum
  pub shstrndx : IsU16 h.e_shstrndx

module _ (f : Stream) where
  pub load_half-put16 :
      (x : ℕ) (r : List ℕ) → IsU16 x → load_half (at f (put16 x ++ r)) ≡ ok (x, at f r)
  unfolding load_half put16
  load_half-put16 x r h = ap (λ y. ok (y, at f r)) (unfold put16 in get16-put16 x h)

  pub load_word-put32 :
      (x : ℕ) (r : List ℕ) → IsU32 x → load_word (at f (put32 x ++ r)) ≡ ok (x, at f r)
  unfolding load_word put32
  load_word-put32 x r h = ap (λ y. ok (y, at f r)) (unfold put32 in get32-put32 x h)

  load_addr-addr_bytes :
      (class x behind : ℕ) (r : List ℕ)
      → class ≡ 1
      → IsU32 x
      → load_addr class (at f (addr_bytes class x behind ++ r)) ≡ ok (x, at f r)
  unfolding load_addr addr_bytes
  load_addr-addr_bytes class x behind r c h = rw (eq→== class 1 c) (load_word-put32 x r h)

  pub load_ident-chunks :
      (i : Ident) (r : List ℕ)
      → is_magic i.mag0 i.mag1 i.mag2 i.mag3 ≡ true
      → load_ident (at f (flatten (ident_chunks i) ++ r)) ≡ ok (i, at f r)
  unfolding load_ident ident_chunks
  load_ident-chunks i r e = rw e

  load_header-chain :
      (h : Ehdr) (r : List ℕ)
      → IsEhdr h
      → load_header (at f (flatten (ident_chunks h.e_ident) ++ chain (field_chunks h) r))
        ≡ ok (h, at f r)
  unfolding load_header load_fields field_chunks
  load_header-chain h r w = rw (
    load_ident-chunks h.e_ident _ w.magic,
    load_half-put16 h.e_type _ w.type,
    load_half-put16 h.e_machine _ w.machine,
    load_word-put32 h.e_version _ w.version,
    load_addr-addr_bytes _ h.e_entry _ _ w.elf32 w.entry,
    load_addr-addr_bytes _ h.e_phoff _ _ w.elf32 w.phoff,
    load_addr-addr_bytes _ h.e_shoff _ _ w.elf32 w.shoff,
    load_word-put32 h.e_flags _ w.flags,
    load_half-put16 h.e_ehsize _ w.ehsize,
    load_half-put16 h.e_phentsize _ w.phentsize,
    load_half-put16 h.e_phnum _ w.phnum,
    load_half-put16 h.e_shentsize _ w.shentsize,
    load_half-put16 h.e_shnum _ w.shnum,
    load_half-put16 h.e_shstrndx _ w.shstrndx,
    load_header,
    load_fields,
    ◌>>=◌,
  )

-- What `write_header` leaves before the position is the identification, then the fields.
pub before-write_header :
    (h : Ehdr) (d : Dest)
    → (write_header h d).before ≡ flatten (ident_chunks h.e_ident) ++ flatten (field_chunks h)
unfolding write_header rewind
before-write_header h d =
    before-write_chunks (field_chunks h) _
    ∙ ap (λ b. b ++ flatten (field_chunks h)) (before-write_chunks (ident_chunks h.e_ident) _)

-- For a 32-bit header whose fields fit, the bytes that `write_header` puts at the start of the
-- destination, whatever it held, are read back by `load_header` as the same header, and the
-- position is then on what follows them.
pub load_header-write_header :
    (h : Ehdr) (d : Dest) (f : Stream) (r : List ℕ)
    → IsEhdr h
    → load_header (at f ((write_header h d).before ++ r)) ≡ ok (h, at f r)
load_header-write_header h d f r w =
    rw (before-write_header h d, append_assoc, flatten-chain (field_chunks h) r)
      (load_header-chain f h r w)
