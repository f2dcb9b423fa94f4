-- ===== src/Examples/Files.antt =====
-- The theorems on the header, at concrete files.
use projet_prog.Common.{
  ℕ, zero, suc, ◌+◌, ◌≡◌, refl, List, [], ◌∷◌, ◌++◌, arith, length, true, false,
}
use projet_prog.Common.Words.{le_value, bswap_16, bswap_32, bswap_64, get16, get32}
use projet_prog.Stdio.{Stream, Dest, ok, at, split, fread_or_exit}
use projet_prog.Elf.{Ident, Ehdr}
use projet_prog.Header.{
  is_magic, load_byte, load_half, load_word, load_addr, load_ident_rest, load_ident, load_fields,
  load_header, write_header,
}
use projet_prog.Header.RoundTrip.{IsEhdr, load_header-write_header}
use projet_prog.Header.Failures.{load_header_succeeds, load_header_wide}

abbrev ident : ℕ → Ident
ident c = record {
  mag0 = 127;
  mag1 = b'E';
  mag2 = b'L';
  mag3 = b'F';
  class = c;
  encoding = 2;
  version = 1;
  osabi = 0;
  abiversion = 0;
  pad0 = 0;
  pad1 = 0;
  pad2 = 0;
  pad3 = 0;
  pad4 = 0;
  pad5 = 0;
  pad6 = 0;
}

-- A header for an ARM object file of class `c`, with a table of `n` section headers at `shoff`.
abbrev pub header : ℕ → ℕ → ℕ → Ehdr
header c shoff n = record {
  e_ident = ident c;
  e_type = 1;
  e_machine = 40;
  e_version = 1;
  e_entry = 0;
  e_phoff = 0;
  e_shoff = shoff;
  e_flags = 0;
  e_ehsize = 52;
  e_phentsize = 0;
  e_phnum = 0;
  e_shentsize = 40;
  e_shnum = n;
  e_shstrndx = 0;
}

header-IsEhdr : IsEhdr (header 1 52 1)
unfolding is_magic
header-IsEhdr = record {
  magic = refl;
  elf32 = refl;
  type = omega arith;
  machine = omega arith;
  version = omega arith;
  entry = omega arith;
  phoff = omega arith;
  shoff = omega arith;
  flags = omega arith;
  ehsize = omega arith;
  phentsize = omega arith;
  phnum = omega arith;
  shentsize = omega arith;
  shnum = omega arith;
  shstrndx = omega arith;
}

abbrev nothing : Stream
nothing = record { bytes = []; rest = [] }

abbrev pub old : Dest
old = record { before = 1 ∷ 2 ∷ []; behind = 3 ∷ [] }

load_header-write_header_example :
    load_header (at nothing ((write_header (header 1 52 1) old).before ++ (9 ∷ [])))
    ≡ ok (header 1 52 1, at nothing (9 ∷ []))
load_header-write_header_example =
    load_header-write_header (header 1 52 1) old nothing (9 ∷ []) header-IsEhdr

no_magic : is_magic 1 2 3 4 ≡ false
unfolding is_magic
no_magic = refl

magic : is_magic 127 b'E' b'L' b'F' ≡ true
unfolding is_magic
magic = refl

-- The byte 7, `n` times.
abbrev sevens : ℕ → List ℕ
sevens zero = []
sevens (suc n) = 7 ∷ sevens n

load_header_succeeds_example :
    (h : Ehdr) × (f' : Stream) × (load_header
        (at nothing (127 ∷ b'E' ∷ b'L' ∷ b'F' ∷ 1 ∷ sevens 50))
      ≡ ok (h, f'))
    × (length f'.rest + 47 ≡ 50)
load_header_succeeds_example =
    load_header_succeeds nothing 127 b'E' b'L' b'F' (sevens 50) magic (omega arith)

abbrev wide_bytes : List ℕ
wide_bytes = 127 ∷ b'E' ∷ b'L' ∷ b'F' ∷ 2 ∷ 2 ∷ 1 ∷ sevens 57

-- What `load_header` takes from a file of class 2 with an entry point, and offsets, that are not 0.
abbrev wide_header : Ehdr
wide_header = record {
  e_ident = record (ident 2) {
    osabi = 7;
    abiversion = 7;
    pad0 = 7;
    pad1 = 7;
    pad2 = 7;
    pad3 = 7;
    pad4 = 7;
    pad5 = 7;
    pad6 = 7;
  };
  e_type = 0x707;
  e_machine = 0x707;
  e_version = 0x7070707;
  e_entry = 0;
  e_phoff = 0;
  e_shoff = 0;
  e_flags = 0x7070707;
  e_ehsize = 0x707;
  e_phentsize = 0x707;
  e_phnum = 0x707;
  e_shentsize = 0x707;
  e_shnum = 0x707;
  e_shstrndx = 0x707;
}

wide_loads : load_header (at nothing wide_bytes) ≡ ok (wide_header, nothing)
unfolding load_header load_ident load_ident_rest load_fields load_byte load_half load_word load_addr
    is_magic fread_or_exit split get16 get32 le_value bswap_16 bswap_32 bswap_64
wide_loads = refl

load_header_wide_example :
    (wide_header.e_entry ≡ 0) × (wide_header.e_phoff ≡ 0) × (wide_header.e_shoff ≡ 0)
load_header_wide_example = load_header_wide (at nothing wide_bytes) wide_loads (λ e. omega arith)
