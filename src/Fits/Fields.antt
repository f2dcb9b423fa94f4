-- ===== src/Fits/Fields.antt =====
-- What is read into the fields of a header, of a section header and of a symbol fits them.
use mathlib.Core.Option
use projet_prog.Common.{
  ℕ, zero, suc, ◌-◌, ◌*◌, ◌^◌, ◌≡◌, refl, List, [], ◌∷◌, Option, none, some, arith, length, All,
  get_or, ltb, ◌==◌, Bool-cases, inl, inr,
}
use projet_prog.Common.Words.{IsU16, IsU32, get16, get32, bswap_16, bswap_32}
use projet_prog.Stdio.{pure, crash, ◌>>=◌, fread, fread_or_exit, fseek}
use projet_prog.Stdio.Outcomes.{ok_not_fault}
use projet_prog.Stdio.Gives.{Gives, pure-Gives, bind-Gives, any_Gives}
use projet_prog.Elf.{Ident, Ehdr, Shdr}
use projet_prog.Header.{load_half, load_word, load_addr, load_ident, load_fields, load_header}
use projet_prog.Sections.{
  array, shdr_of_words, shdr_words, load_words, load_shdrs, load_tab_section_header,
}
use projet_prog.Sections.RoundTrip.{IsShdr}
use projet_prog.Fits.{halves, words}

pub crash-Gives : {A : Type 0} (P : A → Type 0) → Gives crash P
crash-Gives P f a f' e = absurd (ok_not_fault e)

pub get16-IsU16 : (b : List ℕ) → IsU16 (get16 b)
unfolding get16 bswap_16
get16-IsU16 b = omega arith

get32-IsU32 : (b : List ℕ) → IsU32 (get32 b)
unfolding get32 bswap_32
get32-IsU32 b = omega arith

pub load_half-Gives : Gives load_half IsU16
unfolding load_half
load_half-Gives = any_Gives (fread_or_exit 2) _ λ b. pure-Gives IsU16 (get16 b) (get16-IsU16 b)

pub load_word-Gives : Gives load_word IsU32
unfolding load_word
load_word-Gives = any_Gives (fread_or_exit 4) _ λ b. pure-Gives IsU32 (get32 b) (get32-IsU32 b)

load_addr-Gives : (class : ℕ) → Gives (load_addr class) IsU32
unfolding load_addr
load_addr-Gives class = elim (Bool-cases (class == 1)) [
  | inl p ↦ rw p load_word-Gives
  | inr p ↦ rw p (any_Gives (fread_or_exit 8) _ λ b. pure-Gives IsU32 _ (omega arith))
]

abbrev pub HeaderFits : Ehdr → Type 0
HeaderFits h = All IsU16 (halves h) × All IsU32 (words h)

load_fields-Gives : (i : Ident) → Gives (load_fields i) HeaderFits
unfolding load_fields
load_fields-Gives i = bind-Gives load_half _ load_half-Gives λ type type_fits.
    bind-Gives load_half _ load_half-Gives λ machine machine_fits.
      bind-Gives load_word _ load_word-Gives λ version version_fits.
        bind-Gives (load_addr i.class) _ (load_addr-Gives i.class) λ entry entry_fits.
          bind-Gives (load_addr i.class) _ (load_addr-Gives i.class) λ phoff phoff_fits.
            bind-Gives (load_addr i.class) _ (load_addr-Gives i.class) λ shoff shoff_fits.
              bind-Gives load_word _ load_word-Gives λ flags flags_fit.
                bind-Gives load_half _ load_half-Gives λ ehsize ehsize_fits.
                  bind-Gives load_half _ load_half-Gives λ phentsize phentsize_fits.
                    bind-Gives load_half _ load_half-Gives λ phnum phnum_fits.
                      bind-Gives load_half _ load_half-Gives λ shentsize shentsize_fits.
                        bind-Gives load_half _ load_half-Gives λ shnum shnum_fits.
                          bind-Gives load_half _ load_half-Gives λ shstrndx shstrndx_fits.
                            pure-Gives (λ h. All IsU16 (halves h) × All IsU32 (words h)) _
                              (
                                (
                                  type_fits,
                                  (
                                    machine_fits,
                                    (
                                      ehsize_fits,
                                      (
                                        phentsize_fits,
                                        (
                                          phnum_fits,
                                          (shentsize_fits, (shnum_fits, (shstrndx_fits, tt))),
                                        ),
                                      ),
                                    ),
                                  ),
                                ),
                                (
                                  version_fits,
                                  (entry_fits, (phoff_fits, (shoff_fits, (flags_fit, tt)))),
                                ),
                              )

pub load_header-Gives : Gives load_header HeaderFits
unfolding load_header
load_header-Gives = any_Gives load_ident _ load_fields-Gives

-- The words of one header.
WordsFit : ℕ → Option (List ℕ) → Type 0
WordsFit n none = Unit {0}
WordsFit n (some ws) = All IsU32 ws × (length ws ≡ n)

load_words-Gives : (n room : ℕ) → Gives (load_words n room) (WordsFit n)
unfolding load_words WordsFit
load_words-Gives zero room = pure-Gives (WordsFit 0) (some []) (tt, refl)
load_words-Gives (suc n) room = elim (Bool-cases (ltb room 4)) [
  | inl p ↦ rw p (crash-Gives (WordsFit (suc n)))
  | inr p ↦ rw p (any_Gives (fread 4) _ (word-Gives (load_words-Gives n (room - 4))))
]
  where
    word_more :
        (b : List ℕ) (more : Option (List ℕ))
        → WordsFit n more
        → WordsFit (suc n) (Option.map (λ ws. get32 b ∷ ws) more)
    word_more b none w = tt
    word_more b (some ws) (w, e) = ((get32-IsU32 b, w), omega arith)

    word-Gives :
        Gives (load_words n (room - 4)) (WordsFit n)
        → (word : Option (List ℕ))
        → Gives
            (elim word [
              | none ↦ pure none
              | some b ↦
                  load_words n (room - 4) >>= λ more. pure (Option.map (λ ws. get32 b ∷ ws) more)
            ])
            (WordsFit (suc n))
    word-Gives g none = pure-Gives (WordsFit (suc n)) none tt
    word-Gives g (some b) =
        bind-Gives (load_words n (room - 4)) _ g
          λ more w. pure-Gives (WordsFit (suc n)) _ (word_more b more w)

get_or-IsU32 : (ws : List ℕ) (i : ℕ) → All IsU32 ws → IsU32 (get_or ws i 0)
get_or-IsU32 [] i w = omega arith
get_or-IsU32 (x ∷ ws) zero (p, w) = p
get_or-IsU32 (x ∷ ws) (suc i) (p, w) = get_or-IsU32 ws i w

shdr_of_words-IsShdr : (ws : List ℕ) → All IsU32 ws → IsShdr (shdr_of_words ws)
unfolding shdr_of_words IsShdr shdr_words
shdr_of_words-IsShdr ws w =
    let at : (i : ℕ) → IsU32 (get_or ws i 0) = λ i. get_or-IsU32 ws i w in
    (at 0, (at 1, (at 2, (at 3, (at 4, (at 5, (at 6, (at 7, (at 8, (at 9, tt))))))))))

abbrev pub RowsFit : Option (List Shdr) → Type 0
RowsFit sects = All IsShdr (array sects)

load_shdrs-Gives : (n room : ℕ) → Gives (load_shdrs n room) RowsFit
unfolding load_shdrs WordsFit
load_shdrs-Gives zero room = pure-Gives RowsFit (some []) tt
load_shdrs-Gives (suc n) room =
    bind-Gives (load_words 10 room) _ (load_words-Gives 10 room)
      (row-Gives (load_shdrs-Gives n (room - 40)))
  where
    row_more :
        (ws : List ℕ) (more : Option (List Shdr))
        → All IsU32 ws
        → RowsFit more
        → RowsFit (Option.map (λ l. shdr_of_words ws ∷ l) more)
    row_more ws none v w = tt
    row_more ws (some l) v w = (shdr_of_words-IsShdr ws v, w)

    row-Gives :
        Gives (load_shdrs n (room - 40)) RowsFit
        → (words : Option (List ℕ)) → WordsFit 10 words
        → Gives
            (elim words [
              | none ↦ pure none
              | some ws ↦ load_shdrs n (room - 40) >>= λ more.
                  pure (Option.map (λ l. shdr_of_words ws ∷ l) more)
            ])
            RowsFit
    row-Gives g none w = pure-Gives RowsFit none tt
    row-Gives g (some ws) w =
        bind-Gives (load_shdrs n (room - 40)) _ g
          λ more v. pure-Gives RowsFit _ (row_more ws more w.0 v)

pub load_tab_section_header-Gives : (h : Ehdr) → Gives (load_tab_section_header h) RowsFit
unfolding load_tab_section_header
load_tab_section_header-Gives h = elim (Bool-cases (ltb (h.e_shentsize * h.e_shnum) (2 ^ 31))) [
  | inl p ↦
      rw p
        (any_Gives (fseek h.e_shoff) _ λ u. load_shdrs-Gives h.e_shnum (h.e_shentsize * h.e_shnum))
  | inr p ↦ rw p (crash-Gives RowsFit)
]
