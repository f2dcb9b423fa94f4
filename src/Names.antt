-- ===== src/Names.antt =====
-- `printName` of util.c: a name in a string table, at most 17 characters of it.
pub mod Cut
use projet_prog.Common.{ℕ, zero, suc, Option, none, some, List, [], ◌∷◌, ◌==◌, if◌then◌else◌}
use projet_prog.Stdio.{M, ok, pure, ◌>>=◌, ◌>>◌, fseek_int}

-- fscanf(f, "%c", &c): `none` at the end of the stream.
unfoldable pub scan_char : M (Option ℕ)
scan_char f = elim f.rest [ [] ↦ ok (none, f) | c ∷ r ↦ ok (some c, record f { rest = r }) ]

-- The `while`, with `n` rounds left before `compteur` reaches 17; `c` is what was scanned last.
unfoldable pub name_loop : ℕ → Option ℕ → M (List ℕ)
name_loop zero c = pure []
name_loop (suc n) none = pure []
name_loop (suc n) (some c) =
    if c == 0 then pure [] else (do next ← scan_char; cs ← name_loop n next; pure (c ∷ cs))

-- `offset` is an int, given by its 32 bits.
unfoldable pub print_name : ℕ → M (List ℕ)
print_name offset = do fseek_int offset; c ← scan_char; name_loop 17 c
