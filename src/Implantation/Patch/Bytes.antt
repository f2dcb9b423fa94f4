-- ===== src/Implantation/Patch/Bytes.antt =====
-- The bytes that relocations store.
use Prim.Native.Nat.{bit_and, bit_or, bit_or-bitwise}
use projet_prog.Common.{
  ℕ, ◌+◌, ◌*◌, ◌/◌, ◌%◌, ◌^◌, ◌-◌, ◌<◌, ◌≡◌, ◌⊎◌, inl, inr, refl, List, some, get_elem?, arith,
  Bool, true, ◌==◌, ==→eq, all_below, all_below_holds, length, set, get_elem?-lt, Bool-cases,
}
use projet_prog.Stdio.{ok}
use projet_prog.Elf.{Shdr, Symbol, Rel, SectionContent, block, r_sym, r_type}
use projet_prog.Common.Words.{add32}
use projet_prog.Implantation.Patch.{
  sign_extend, sign_extend16, sign_extend8, store_byte, patch, apply_rel,
}

masked : ℕ → Bool
masked p = bit_and 4294967295 p == p

masked_row : ℕ → Bool
masked_row h = all_below (λ l. masked (256 * h + l)) 256

all_masked : all_below masked_row 256 ≡ true
unfolding all_below masked_row masked
all_masked = refl

masked_eq : (p : ℕ) → p < 65536 → bit_and 4294967295 p ≡ p
unfolding masked masked_row
masked_eq p h =
    let row = all_below_holds masked_row 256 (p / 256) all_masked (omega arith) in
    let cell =
      all_below_holds (λ l. masked (256 * (p / 256) + l)) 256 (p % 256) row (omega arith) in
    let whole : 256 * (p / 256) + p % 256 ≡ p = omega arith in
    ==→eq (bit_and 4294967295 p) p (rw whole at cell)

zero-bit_or : (p : ℕ) → bit_or 0 p ≡ p
zero-bit_or p = bit_or-bitwise 0 p

-- The mask of 0 leaves every number of at most 16 bits as it is: no sign is extended.
sign_extend_same : (width p : ℕ) → p < 65536 → sign_extend width p ≡ p
unfolding sign_extend
sign_extend_same width p h = elim (Bool-cases (p / 2 ^ (width - 1) == 1)) [
  | inl e ↦ rw e (masked_eq p h)
  | inr e ↦ rw e (zero-bit_or p)
]

sign_extend16_same : (p : ℕ) → p < 65536 → sign_extend16 p ≡ p
unfolding sign_extend16
sign_extend16_same p h = sign_extend_same 16 p h

sign_extend8_same : (p : ℕ) → p < 65536 → sign_extend8 p ≡ p
unfolding sign_extend8
sign_extend8_same p h = sign_extend_same 8 p h

store_byte-block :
    (bs : List ℕ) (offset value : ℕ)
    → offset < length bs
    → store_byte (block bs) offset value ≡ ok (block (set bs offset (value % 256)))
unfolding store_byte
store_byte-block bs offset value h = let (b, e) = get_elem?-lt bs offset h in rw (e, store_byte)

patch-set :
    (r : Rel) (s : Symbol) (own : Shdr) (bs : List ℕ)
    → (r_type r.r_info ≡ 5) ⊎ (r_type r.r_info ≡ 8)
    → r.r_offset < length bs
    → patch r s own (block bs)
      ≡ ok (block (set bs r.r_offset ((s.st_value + (own.sh_addr + r.r_offset)) % 256)))
unfolding patch add32
patch-set r s own bs (inl t) h =
    let place : ℕ = (own.sh_addr + r.r_offset) % 2 ^ 16 in
    let low : (s.st_value + place) % 2 ^ 32 % 256
        ≡ (s.st_value + (own.sh_addr + r.r_offset)) % 256 =
      omega arith in
    rw (
      t,
      sign_extend16_same place (omega arith),
      store_byte-block bs r.r_offset ((s.st_value + place) % 2 ^ 32) h,
      low,
    )
patch-set r s own bs (inr t) h =
    let place : ℕ = (own.sh_addr + r.r_offset) % 2 ^ 8 in
    let low : (s.st_value + place) % 2 ^ 32 % 256
        ≡ (s.st_value + (own.sh_addr + r.r_offset)) % 256 =
      omega arith in
    rw (
      t,
      sign_extend8_same place (omega arith),
      store_byte-block bs r.r_offset ((s.st_value + place) % 2 ^ 32) h,
      low,
    )

-- A relocation of type R_ARM_ABS16 or R_ARM_ABS8, whose symbol has a section and whose place lies in
-- the block of the section that sh_info of this section names, stores one byte there: the lowest
-- byte of the value of the symbol plus the address of the place, the sum of the address of the
-- section of the symbol and the offset. No other byte and no other content changes.
pub apply_rel-set :
    (sects : List Shdr) (syms : List Symbol) (r : Rel) (contents : List SectionContent) (s : Symbol)
    (own : Shdr) (bs : List ℕ) (size : ℕ)
    → get_elem? syms (r_sym r.r_info) ≡ some s
    → get_elem? sects s.st_shndx ≡ some own
    → get_elem? contents own.sh_info ≡ some (record { section = block bs; size = size })
    → (r_type r.r_info ≡ 5) ⊎ (r_type r.r_info ≡ 8)
    → r.r_offset < length bs
    → apply_rel sects syms r contents
      ≡ ok (
          set contents own.sh_info (record {
            section = block (set bs r.r_offset ((s.st_value + (own.sh_addr + r.r_offset)) % 256));
            size = size;
          }))
unfolding apply_rel
apply_rel-set sects syms r contents s own bs size p q c t h =
    rw (p, q, c, patch-set r s own bs t h, apply_rel)
