-- ===== src/Symbols/RoundTrip.antt =====
-- The symbols that `write_symbols` writes, read back by `load_table`.
use mathlib.Core.List.{append_assoc, append-nil}
use projet_prog.Common.{
  ℕ, ◌-◌, ◌*◌, ◌/◌, ◌%◌, ◌^◌, ◌<◌, ◌≤◌, ◌≡◌, refl, ap, ◌∙◌, List, [], ◌∷◌, ◌++◌, some, arith,
  length, All, drop, ge→ltb, drop-append,
}
use projet_prog.Common.Words.{IsU16, IsU32}
use projet_prog.Stdio.{
  ◌>>=◌, ◌>>◌, Stream, Dest, ok, at, fseek, flatten, before-write_chunks, write_chunks, chain,
  flatten-chain,
}
use projet_prog.Elf.{Shdr, Symbol}
use projet_prog.Header.{load_byte}
use projet_prog.Header.RoundTrip.{load_half-put16, load_word-put32}
use projet_prog.Symbols.{load_symbol, load_symbols, load_table}
use projet_prog.Writer.{symbol_chunks, write_symbols}

-- The fields of more than one byte fit their C types.
pub record IsSymbol (s : Symbol) : Type 0 where
  pub name : IsU32 s.st_name
  pub value : IsU32 s.st_value
  pub size : IsU32 s.st_size
  pub shndx : IsU16 s.st_shndx

-- The bytes of a table.
abbrev pub symbol_bytes : List Symbol → List ℕ
symbol_bytes [] = []
symbol_bytes (s ∷ l) = flatten (symbol_chunks s) ++ symbol_bytes l

module _ (f : Stream) where
  load_byte-cons : (b : ℕ) (r : List ℕ) → load_byte (at f (b ∷ r)) ≡ ok (b, at f r)
  unfolding load_byte
  load_byte-cons b r = refl

  load_symbol-chain :
      (s : Symbol) (r : List ℕ)
      → IsSymbol s
      → load_symbol (at f (chain (symbol_chunks s) r)) ≡ ok (s, at f r)
  unfolding load_symbol symbol_chunks
  load_symbol-chain s r w = rw (
    load_word-put32 f s.st_name _ w.name,
    load_word-put32 f s.st_value _ w.value,
    load_word-put32 f s.st_size _ w.size,
    load_byte-cons s.st_info _,
    load_byte-cons s.st_other _,
    load_half-put16 f s.st_shndx _ w.shndx,
    load_symbol,
    ◌>>=◌,
  )

  load_symbol-chunks :
      (s : Symbol) (r : List ℕ)
      → IsSymbol s
      → load_symbol (at f (flatten (symbol_chunks s) ++ r)) ≡ ok (s, at f r)
  load_symbol-chunks s r w = rw (flatten-chain (symbol_chunks s) r) (load_symbol-chain s r w)

  load_symbols-bytes :
      (l : List Symbol) (room : ℕ) (r : List ℕ)
      → All IsSymbol l
      → 16 * length l ≤ room
      → load_symbols (length l) room (at f (symbol_bytes l ++ r)) ≡ ok (l, at f r)
  unfolding load_symbols
  load_symbols-bytes [] room r w h = refl
  load_symbols-bytes (s ∷ l) room r (p, w) h = rw (
    append_assoc (flatten (symbol_chunks s)) (symbol_bytes l) r,
    ge→ltb room 16 (omega arith),
    load_symbol-chunks s (symbol_bytes l ++ r) p,
    load_symbols-bytes l (room - 16) r w (omega arith),
    ◌>>=◌,
  )

pub write_symbols-bytes :
    (l : List Symbol) (d : Dest)
    → (d' : Dest) × (write_symbols (length l) l d ≡ ok d')
      × (d'.before ≡ d.before ++ symbol_bytes l)
unfolding write_symbols
write_symbols-bytes [] d = (d, refl, rw append-nil)
write_symbols-bytes (s ∷ l) d =
    let (d', e, p) = write_symbols-bytes l (write_chunks (symbol_chunks s) d) in
    (d', e, p ∙ rw (before-write_chunks (symbol_chunks s) d, append_assoc))

pub load_table-bytes :
    (s : Shdr) (l : List Symbol) (f : Stream) (front r : List ℕ)
    → All IsSymbol l
    → s.sh_offset ≡ length front
    → s.sh_size ≡ 16 * length l
    → s.sh_size < 2 ^ 28
    → f.bytes ≡ front ++ (symbol_bytes l ++ r)
    → load_table (some s) f ≡ ok ((some l, some (length l)), at f r)
unfolding load_table fseek
load_table-bytes s l f front r w o z h b =
    let n : s.sh_size / 16 ≡ length l = omega arith in
    rw
      (
        n,
        o,
        ap (drop (length front)) b ∙ drop-append front (symbol_bytes l ++ r),
        load_symbols-bytes f l (s.sh_size * 16 % 2 ^ 32) r w (omega arith),
        ◌>>=◌,
        ◌>>◌,
      )
      (ap (λ k. ok ((some l, some k), at f r)) n)

-- Let the fields of the symbols fit their types, and a header give the position of the destination
-- as its offset and 16 bytes for every symbol as its size, less than 2 ^ 28. Then `write_symbols`
-- succeeds, and `load_table` on a file that starts with what is written up to the position reached
-- returns the same symbols and their number.
pub load_table-write_symbols :
    (s : Shdr) (l : List Symbol) (d : Dest) (r rest : List ℕ)
    → All IsSymbol l
    → s.sh_offset ≡ length d.before
    → s.sh_size ≡ 16 * length l
    → s.sh_size < 2 ^ 28
    → (d' : Dest) × (write_symbols (length l) l d ≡ ok d')
      × (load_table (some s) (record { bytes = d'.before ++ r; rest = rest })
          ≡ ok ((some l, some (length l)), record { bytes = d'.before ++ r; rest = r }))
load_table-write_symbols s l d r rest w o z h =
    let (d', e, p) = write_symbols-bytes l d in
    let f : Stream = record { bytes = d'.before ++ r; rest = rest } in
    (
      d',
      e,
      load_table-bytes s l f d.before r w o z h
          (ap (λ b. b ++ r) p ∙ append_assoc d.before (symbol_bytes l) r),
    )
