-- ===== src/Header.antt =====
-- Functions/readElfHeader.c and `writeHeader` of Functions/writeFile.c: the ELF header.
pub mod RoundTrip
pub mod Failures
use projet_prog.Common.{
  ℕ, ◌%◌, ◌^◌, Bool, ◌&&◌, List, [], ◌∷◌, ◌++◌, ◌==◌, if◌then◌else◌, get_or, take,
}
use projet_prog.Common.Words.{get16, get32, put16, put32, le_value, le_bytes32, bswap_64}
use projet_prog.Stdio.{M, pure, stop, ◌>>=◌, fread_or_exit, Dest, rewind, write_chunks}
use projet_prog.Elf.{Ident, Ehdr}

-- `if (fread(&x,1,1,f) != 1) {exit(1);}` for an unsigned char.
unfoldable pub load_byte : M ℕ
unfolding fread_or_exit
load_byte = do b ← fread_or_exit 1; pure (get_or b 0 0)

-- The same for two bytes, then bswap_16.
unfoldable pub load_half : M ℕ
unfolding fread_or_exit get16
load_half = do b ← fread_or_exit 2; pure (get16 b)

-- The same for four bytes, then bswap_32.
unfoldable pub load_word : M ℕ
unfolding fread_or_exit get32
load_word = do b ← fread_or_exit 4; pure (get32 b)

-- An address: 4 bytes for class 1. Otherwise 8 bytes go to the 4 bytes of the field and to the
-- field behind it, which is read again later; bswap_64 of the field is stored in its 4 bytes.
unfoldable pub load_addr : ℕ → M ℕ
unfolding fread_or_exit load_word le_value bswap_64
load_addr class =
    if class == 1
    then load_word
    else (do b ← fread_or_exit 8; pure (bswap_64 (le_value (take 4 b)) % 2 ^ 32))

unfoldable pub is_magic : ℕ → ℕ → ℕ → ℕ → Bool
is_magic m0 m1 m2 m3 = m0 == 0x7f && (m1 == b'E' && (m2 == b'L' && m3 == b'F'))

-- The identification behind the magic bytes.
unfoldable pub load_ident_rest : ℕ → ℕ → ℕ → ℕ → M Ident
load_ident_rest m0 m1 m2 m3 = do
  class ← load_byte
  encoding ← load_byte
  version ← load_byte
  osabi ← load_byte
  abiversion ← load_byte
  pad ← fread_or_exit 7
  pure (record {
    mag0 = m0;
    mag1 = m1;
    mag2 = m2;
    mag3 = m3;
    class = class;
    encoding = encoding;
    version = version;
    osabi = osabi;
    abiversion = abiversion;
    pad0 = get_or pad 0 0;
    pad1 = get_or pad 1 0;
    pad2 = get_or pad 2 0;
    pad3 = get_or pad 3 0;
    pad4 = get_or pad 4 0;
    pad5 = get_or pad 5 0;
    pad6 = get_or pad 6 0;
  })

unfoldable pub load_ident : M Ident
unfolding load_byte load_ident_rest
load_ident = do
  m0 ← load_byte
  m1 ← load_byte
  m2 ← load_byte
  m3 ← load_byte
  if is_magic m0 m1 m2 m3 then load_ident_rest m0 m1 m2 m3 else stop

-- The fields behind the identification.
unfoldable pub load_fields : Ident → M Ehdr
load_fields ident = do
  type ← load_half
  machine ← load_half
  version ← load_word
  entry ← load_addr ident.class
  phoff ← load_addr ident.class
  shoff ← load_addr ident.class
  flags ← load_word
  ehsize ← load_half
  phentsize ← load_half
  phnum ← load_half
  shentsize ← load_half
  shnum ← load_half
  shstrndx ← load_half
  pure (record {
    e_ident = ident;
    e_type = type;
    e_machine = machine;
    e_version = version;
    e_entry = entry;
    e_phoff = phoff;
    e_shoff = shoff;
    e_flags = flags;
    e_ehsize = ehsize;
    e_phentsize = phentsize;
    e_phnum = phnum;
    e_shentsize = shentsize;
    e_shnum = shnum;
    e_shstrndx = shstrndx;
  })

unfoldable pub load_header : M Ehdr
load_header = do ident ← load_ident; load_fields ident

-- The bytes that one `fwrite` of an address field sends: for class 1 the swapped field, otherwise
-- 8 bytes of memory, the field and the one behind it as they are.
unfoldable pub addr_bytes : ℕ → ℕ → ℕ → List ℕ
unfolding put32 le_bytes32
addr_bytes class x behind = if class == 1 then put32 x else le_bytes32 x ++ le_bytes32 behind

-- The buffers of the calls of `fwrite`, in order.
unfoldable pub ident_chunks : Ident → List (List ℕ)
ident_chunks i =
    (i.mag0 ∷ [])
    ∷ (i.mag1 ∷ [])
    ∷ (i.mag2 ∷ [])
    ∷ (i.mag3 ∷ [])
    ∷ (i.class ∷ [])
    ∷ (i.encoding ∷ [])
    ∷ (i.version ∷ [])
    ∷ (i.osabi ∷ [])
    ∷ (i.abiversion ∷ [])
    ∷ (i.pad0 ∷ i.pad1 ∷ i.pad2 ∷ i.pad3 ∷ i.pad4 ∷ i.pad5 ∷ i.pad6 ∷ [])
    ∷ []

unfoldable pub field_chunks : Ehdr → List (List ℕ)
field_chunks h =
    put16 h.e_type
    ∷ put16 h.e_machine
    ∷ put32 h.e_version
    ∷ addr_bytes h.e_ident.class h.e_entry h.e_phoff
    ∷ addr_bytes h.e_ident.class h.e_phoff h.e_shoff
    ∷ addr_bytes h.e_ident.class h.e_shoff h.e_flags
    ∷ put32 h.e_flags
    ∷ put16 h.e_ehsize
    ∷ put16 h.e_phentsize
    ∷ put16 h.e_phnum
    ∷ put16 h.e_shentsize
    ∷ put16 h.e_shnum
    ∷ put16 h.e_shstrndx
    ∷ []

unfoldable pub write_header : Ehdr → Dest → Dest
unfolding rewind
write_header h d = write_chunks (field_chunks h) (write_chunks (ident_chunks h.e_ident) (rewind d))
