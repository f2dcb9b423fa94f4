-- ===== src/Header/Failures.antt =====
-- When `load_header` gives up, and what it makes of a 64-bit header.
use projet_prog.Common.{
  ℕ, ◌+◌, ◌%◌, ◌^◌, ◌<◌, ◌≤◌, ◌≡◌, ◌≢◌, refl, sym, ap, ◌∙◌, List, [], ◌∷◌, true, false, arith, ◌==◌,
  length, take, eq→==, Bool-cases, inl, inr, ==→eq,
}
use projet_prog.Common.Words.{le_value, bswap_32, bswap_64}
use projet_prog.Stdio.{M, ◌>>=◌, Stream, Outcome, ok, exit, fault, at, bind_inv, fread_or_exit}
use projet_prog.Stdio.Takes.{Takes, Any, fread_or_exit-Takes, pure-Takes, bind-Takes}
use projet_prog.Stdio.Gives.{Gives, bind-Gives, any_Gives, pure-Gives}
use projet_prog.Elf.{Ident, Ehdr}
use projet_prog.Header.{
  load_byte, load_half, load_word, load_addr, is_magic, load_ident_rest, load_ident, load_fields,
  load_header,
}

load_half-Takes : Takes 2 load_half Any
unfolding load_half
load_half-Takes =
    bind-Takes 2 0 (fread_or_exit 2) _ (fread_or_exit-Takes 2) (λ b _. pure-Takes _ tt)

load_word-Takes : Takes 4 load_word Any
unfolding load_word
load_word-Takes =
    bind-Takes 4 0 (fread_or_exit 4) _ (fread_or_exit-Takes 4) (λ b _. pure-Takes _ tt)

load_addr-Takes : (class : ℕ) → class ≡ 1 → Takes 4 (load_addr class) Any
unfolding load_addr
load_addr-Takes class e = rw (eq→== class 1 e) load_word-Takes

-- The fields behind the identification of a 32-bit header are 36 bytes.
load_fields-Takes : (i : Ident) → i.class ≡ 1 → Takes 36 (load_fields i) Any
unfolding load_fields
load_fields-Takes i e = bind-Takes 2 34 load_half _ load_half-Takes λ type _.
    bind-Takes 2 32 load_half _ load_half-Takes λ machine _.
      bind-Takes 4 28 load_word _ load_word-Takes λ version _.
        bind-Takes 4 24 (load_addr i.class) _ (load_addr-Takes i.class e) λ entry _.
          bind-Takes 4 20 (load_addr i.class) _ (load_addr-Takes i.class e) λ phoff _.
            bind-Takes 4 16 (load_addr i.class) _ (load_addr-Takes i.class e) λ shoff _.
              bind-Takes 4 12 load_word _ load_word-Takes λ flags _.
                bind-Takes 2 10 load_half _ load_half-Takes λ ehsize _.
                  bind-Takes 2 8 load_half _ load_half-Takes λ phentsize _.
                    bind-Takes 2 6 load_half _ load_half-Takes λ phnum _.
                      bind-Takes 2 4 load_half _ load_half-Takes λ shentsize _.
                        bind-Takes 2 2 load_half _ load_half-Takes λ shnum _.
                          bind-Takes 2 0 load_half _ load_half-Takes λ shstrndx _. pure-Takes _ tt

load_byte-Takes : Takes 1 load_byte Any
unfolding load_byte
load_byte-Takes =
    bind-Takes 1 0 (fread_or_exit 1) _ (fread_or_exit-Takes 1) (λ b _. pure-Takes _ tt)

-- The same bytes, read behind the class.
after_class : ℕ → ℕ → ℕ → ℕ → ℕ → M Ident
after_class m0 m1 m2 m3 class f = load_ident_rest m0 m1 m2 m3 (at f (class ∷ f.rest))

after_class-Takes :
    (m0 m1 m2 m3 class : ℕ) → Takes 11 (after_class m0 m1 m2 m3 class) (λ i. i.class ≡ class)
unfolding after_class load_ident_rest load_byte
after_class-Takes m0 m1 m2 m3 class = bind-Takes 1 10 load_byte _ load_byte-Takes λ encoding _.
    bind-Takes 1 9 load_byte _ load_byte-Takes λ version _.
      bind-Takes 1 8 load_byte _ load_byte-Takes λ osabi _.
        bind-Takes 1 7 load_byte _ load_byte-Takes λ abiversion _.
          bind-Takes 7 0 (fread_or_exit 7) _ (fread_or_exit-Takes 7) λ pad _. pure-Takes _ refl

magic_goes_on :
    (f : Stream) (m0 m1 m2 m3 : ℕ) (l : List ℕ)
    → is_magic m0 m1 m2 m3 ≡ true
    → load_ident (at f (m0 ∷ m1 ∷ m2 ∷ m3 ∷ l)) ≡ load_ident_rest m0 m1 m2 m3 (at f l)
unfolding load_ident
magic_goes_on f m0 m1 m2 m3 l e = rw e

no_magic_stops :
    (f : Stream) (m0 m1 m2 m3 : ℕ) (l : List ℕ)
    → is_magic m0 m1 m2 m3 ≡ false
    → load_ident (at f (m0 ∷ m1 ∷ m2 ∷ m3 ∷ l)) ≡ exit
unfolding load_ident
no_magic_stops f m0 m1 m2 m3 l e = rw e

-- A file whose first four bytes are not the magic ones makes `load_header` exit.
load_header_no_magic :
    (f : Stream) (m0 m1 m2 m3 : ℕ) (l : List ℕ)
    → is_magic m0 m1 m2 m3 ≡ false
    → load_header (at f (m0 ∷ m1 ∷ m2 ∷ m3 ∷ l)) ≡ exit
unfolding load_header
load_header_no_magic f m0 m1 m2 m3 l e = rw (no_magic_stops f m0 m1 m2 m3 l e, load_header, ◌>>=◌)

load_header-class : (m0 m1 m2 m3 : ℕ) → Takes 47 (after_class m0 m1 m2 m3 1 >>= load_fields) Any
load_header-class m0 m1 m2 m3 =
    bind-Takes 11 36 (after_class m0 m1 m2 m3 1) load_fields (after_class-Takes m0 m1 m2 m3 1)
      load_fields-Takes

-- A file with the magic bytes and class 1 makes `load_header` exit if it has less than 52 bytes.
load_header_short :
    (f : Stream) (m0 m1 m2 m3 : ℕ) (l : List ℕ)
    → is_magic m0 m1 m2 m3 ≡ true
    → length l < 47
    → load_header (at f (m0 ∷ m1 ∷ m2 ∷ m3 ∷ 1 ∷ l)) ≡ exit
unfolding load_header after_class
load_header_short f m0 m1 m2 m3 l e h =
    rw (magic_goes_on f m0 m1 m2 m3 (1 ∷ l) e, load_header, ◌>>=◌)
      ((load_header-class m0 m1 m2 m3 (at f l)).0 h)

-- From a file with the magic bytes, class 1 and at least 52 bytes, whatever these are, `load_header`
-- returns a header, and takes exactly 52 bytes.
pub load_header_succeeds :
    (f : Stream) (m0 m1 m2 m3 : ℕ) (l : List ℕ)
    → is_magic m0 m1 m2 m3 ≡ true
    → 47 ≤ length l
    → (h : Ehdr) × (f' : Stream) × (load_header (at f (m0 ∷ m1 ∷ m2 ∷ m3 ∷ 1 ∷ l)) ≡ ok (h, f'))
      × (length f'.rest + 47 ≡ length l)
unfolding load_header after_class
load_header_succeeds f m0 m1 m2 m3 l e h =
    let (a, f', p, q, _) = (load_header-class m0 m1 m2 m3 (at f l)).1 h in
    (a, f', rw (magic_goes_on f m0 m1 m2 m3 (1 ∷ l) e, load_header, ◌>>=◌) p, q)

four_bytes : (b : List ℕ) → le_value (take 4 b) < 2 ^ 32
unfolding le_value
four_bytes [] = omega arith
four_bytes (a ∷ []) = omega arith
four_bytes (a ∷ b ∷ []) = omega arith
four_bytes (a ∷ b ∷ c ∷ []) = omega arith
four_bytes (a ∷ b ∷ c ∷ d ∷ l) = omega arith

swapped_away : (x : ℕ) → x < 2 ^ 32 → bswap_64 x % 2 ^ 32 ≡ 0
unfolding bswap_64 bswap_32
swapped_away x h = omega arith

load_addr_wide :
    (class : ℕ) (f : Stream) {x : ℕ} {f' : Stream}
    → class ≢ 1
    → load_addr class f ≡ ok (x, f')
    → x ≡ 0
unfolding load_addr
load_addr_wide class f {x} {f'} n e = elim (Bool-cases (class == 1)) [
  | inl p ↦ absurd (n (==→eq class 1 p))
  | inr p ↦
      let (b, g, q, r) = bind_inv (fread_or_exit 8) _ f (rw p at e) in
      sym (ap result r) ∙ swapped_away (le_value (take 4 b)) (four_bytes b)
]
  where
    result : Outcome (ℕ × Stream) → ℕ
    result (ok (y, _)) = y
    result exit = 0
    result fault = 0

-- Of a header whose class is not 1.
unfoldable IsWide : Ehdr → Type 0
IsWide h = h.e_ident.class ≢ 1 → (h.e_entry ≡ 0) × (h.e_phoff ≡ 0) × (h.e_shoff ≡ 0)

load_addr-Gives : (class : ℕ) → Gives (load_addr class) (λ x. class ≢ 1 → x ≡ 0)
load_addr-Gives class f x f' e n = load_addr_wide class f n e

load_fields-Gives : (i : Ident) → Gives (load_fields i) IsWide
unfolding load_fields IsWide
load_fields-Gives i = any_Gives load_half _ λ type. any_Gives load_half _ λ machine.
    any_Gives load_word _ λ version.
      bind-Gives (load_addr i.class) _ (load_addr-Gives i.class) λ entry p.
        bind-Gives (load_addr i.class) _ (load_addr-Gives i.class) λ phoff q.
          bind-Gives (load_addr i.class) _ (load_addr-Gives i.class) λ shoff r.
            any_Gives load_word _ λ flags. any_Gives load_half _ λ ehsize.
              any_Gives load_half _ λ phentsize. any_Gives load_half _ λ phnum.
                any_Gives load_half _ λ shentsize. any_Gives load_half _ λ shnum.
                  any_Gives load_half _ λ shstrndx. pure-Gives IsWide _ λ n. (p n, q n, r n)

-- Of a file whose class is not 1, `load_header` takes the entry point and the two offsets to be 0,
-- whatever the file says.
pub load_header_wide :
    (f : Stream) {h : Ehdr} {f' : Stream}
    → load_header f ≡ ok (h, f')
    → h.e_ident.class ≢ 1
    → (h.e_entry ≡ 0) × (h.e_phoff ≡ 0) × (h.e_shoff ≡ 0)
unfolding load_header IsWide
load_header_wide f {h} {f'} e n = any_Gives load_ident load_fields load_fields-Gives f h f' e n
