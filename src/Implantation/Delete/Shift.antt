-- ===== src/Implantation/Delete/Shift.antt =====
-- The loops that move the elements of an array down by one place.
use mathlib.Core.Option.{some-injective}
use projet_prog.Common.{Option-cases, inl, inr}
use projet_prog.Common.{
  ℕ, zero, suc, ◌+◌, ◌-◌, ◌<◌, ◌≤◌, ◌≡◌, ◌≢◌, ◌⊎◌, refl, sym, ap, ◌∙◌, List, [], ◌∷◌, none, some,
  arith, length, get_elem?, set, All, length-set, get_elem?-lt, take-length,
}
use projet_prog.Stdio.{ok}
use projet_prog.Elf.{SectionContent, uninit, block}
use projet_prog.Implantation.Delete.{
  copy_down, shift_down, move_block, copy_content, shift_contents, free_content, delete_content,
}

module _ {ℓ} {A : Type ℓ} where
  copy_down-cons : (y : A) (a : List A) (j : ℕ) → copy_down (y ∷ a) (suc j) ≡ y ∷ copy_down a j
  unfolding copy_down
  copy_down-cons y a j = ground arith

  pub shift_down-cons :
      (r j : ℕ) (y : A) (a : List A) → shift_down r (suc j) (y ∷ a) ≡ y ∷ shift_down r j a
  unfolding shift_down
  shift_down-cons zero j y a = refl
  shift_down-cons (suc r) j y a =
      ap (shift_down r (suc (suc j))) (copy_down-cons y a j)
      ∙ shift_down-cons r (suc j) y (copy_down a j)

  -- The first round of a loop that starts at the front.
  pub shift_down_front :
      (r : ℕ) (x y : A) (a : List A) → shift_down (suc r) 0 (x ∷ y ∷ a) ≡ y ∷ shift_down r 0 (y ∷ a)
  unfolding shift_down copy_down
  shift_down_front r x y a = shift_down-cons r 0 y (y ∷ a)

  length-copy_down : (a : List A) (j : ℕ) → length (copy_down a j) ≡ length a
  unfolding copy_down
  length-copy_down a j = elim (Option-cases (get_elem? a (suc j))) [
    | inl e ↦ rw (e, copy_down)
    | inr (x, e) ↦ rw (e, copy_down) (length-set a j x)
  ]

  pub length-shift_down : (r j : ℕ) (a : List A) → length (shift_down r j a) ≡ length a
  unfolding shift_down
  length-shift_down zero j a = refl
  length-shift_down (suc r) j a = length-shift_down r (suc j) (copy_down a j) ∙ length-copy_down a j

  module _ {κ} (P : A → Type κ) where
    All-set : (a : List A) (j : ℕ) (x : A) → All P a → P x → All P (set a j x)
    All-set [] j x h p = h
    All-set (y ∷ a) zero x h p = (p, h.1)
    All-set (y ∷ a) (suc j) x h p = (h.0, All-set a j x h.1 p)

    All-get_elem? : (a : List A) (j : ℕ) {x : A} → All P a → get_elem? a j ≡ some x → P x
    All-get_elem? [] j h e = absurd (ground arith)
    All-get_elem? (y ∷ a) zero h e = rw (← some-injective _ _ e) h.0
    All-get_elem? (y ∷ a) (suc j) h e = All-get_elem? a j h.1 e

    All-copy_down : (a : List A) (j : ℕ) → All P a → All P (copy_down a j)
    unfolding copy_down
    All-copy_down a j h = elim (Option-cases (get_elem? a (suc j))) [
      | inl e ↦ rw (e, copy_down) h
      | inr (x, e) ↦ rw (e, copy_down) (All-set a j x h (All-get_elem? a (suc j) h e))
    ]

    pub All-shift_down : (r j : ℕ) (a : List A) → All P a → All P (shift_down r j a)
    unfolding shift_down
    All-shift_down zero j a h = h
    All-shift_down (suc r) j a h = All-shift_down r (suc j) (copy_down a j) (All-copy_down a j h)

  pub get_elem?-set_other :
      (a : List A) (j k : ℕ) (x : A) → k ≢ j → get_elem? (set a j x) k ≡ get_elem? a k
  get_elem?-set_other [] j k x n = refl
  get_elem?-set_other (y ∷ a) zero zero x n = absurd (n refl)
  get_elem?-set_other (y ∷ a) zero (suc k) x n = refl
  get_elem?-set_other (y ∷ a) (suc j) zero x n = refl
  get_elem?-set_other (y ∷ a) (suc j) (suc k) x n = get_elem?-set_other a j k x (λ e. n (ap suc e))

  get_elem?-set :
      (a : List A) (j k : ℕ) (x : A)
      → (get_elem? (set a j x) k ≡ get_elem? a k) ⊎ (get_elem? (set a j x) k ≡ some x)
  get_elem?-set [] j k x = inl refl
  get_elem?-set (y ∷ a) zero zero x = inr refl
  get_elem?-set (y ∷ a) zero (suc k) x = inl refl
  get_elem?-set (y ∷ a) (suc j) zero x = inl refl
  get_elem?-set (y ∷ a) (suc j) (suc k) x = get_elem?-set a j k x

  -- The elements from `f` on and below `n`.
  abbrev pub Between {κ} : (A → Type κ) → ℕ → ℕ → List A → Type (ℓ ⊔ κ)
  Between P f n a = (k : ℕ) (x : A) → f ≤ k → k < n → get_elem? a k ≡ some x → P x

  module _ {κ} (P : A → Type κ) (f n : ℕ) where
    Between-copy_down :
        (a : List A) (j : ℕ) → f ≤ j → suc j < n → Between P f n a → Between P f n (copy_down a j)
    unfolding copy_down
    Between-copy_down a j l m h k x p q e = elim (Option-cases (get_elem? a (suc j))) [
      | inl none_there ↦ h k x p q (rw (none_there, copy_down) at e)
      | inr (y, there) ↦
          let e' : get_elem? (set a j y) k ≡ some x = rw (there, copy_down) at e in
          elim (get_elem?-set a j k y) [
            | inl same ↦ h k x p q (sym same ∙ e')
            | inr new ↦ h (suc j) x (omega arith) m (there ∙ sym new ∙ e')
          ]
    ]

    pub Between-shift_down :
        (r j : ℕ) (a : List A)
        → f ≤ j
        → j + r < n
        → Between P f n a
        → Between P f n (shift_down r j a)
    unfolding shift_down
    Between-shift_down zero j a l m h = h
    Between-shift_down (suc r) j a l m h =
        Between-shift_down r (suc j) (copy_down a j) (omega arith) (omega arith)
          (Between-copy_down a j l (omega arith) h)

-- A content that was read: a block of as many bytes as its size says, at least one.
pub data IsLoaded (c : SectionContent) : Type 0 where
  loaded :
      (b : ℕ) (bs : List ℕ)
      → c ≡ record { section = block (b ∷ bs); size = length (b ∷ bs) }
      → IsLoaded c

move_block-loaded :
    (c d : SectionContent)
    → IsLoaded c
    → IsLoaded d
    → move_block c.section d.section d.size ≡ ok d.section
unfolding move_block
move_block-loaded c d (loaded b bs e) (loaded b' bs' e') =
    rw (e, e') (ap (λ l. ok (block (b' ∷ l))) (take-length bs'))

-- The contents from `f` on and below `n` were read.
abbrev pub AreLoaded : ℕ → ℕ → List SectionContent → Type 0
AreLoaded f n a = Between IsLoaded f n a

-- The pointer of content `j` when its block is freed.
unfoldable pub freed : ℕ → List SectionContent → List SectionContent
freed j a = elim (get_elem? a j) [ none ↦ a | some c ↦ set a j (record c { section = uninit }) ]

module _ (f n : ℕ) where
  copy_content-copy_down :
      (a : List SectionContent) (j : ℕ)
      → AreLoaded f n a
      → f ≤ j
      → suc j < n
      → n ≤ length a
      → copy_content a j ≡ ok (copy_down a j)
  unfolding copy_content copy_down
  copy_content-copy_down a j h l m k =
      let (c, e) = get_elem?-lt a j (omega arith) in
      let (d, e') = get_elem?-lt a (suc j) (omega arith) in
      rw (e, e', copy_content, copy_down)
        (rw (move_block-loaded c d (h j c l (omega arith) e) (h (suc j) d (omega arith) m e')) refl)

  -- On contents that were read, the loop with realloc and memmove moves the blocks down.
  shift_contents-shift_down :
      (r j : ℕ) (a : List SectionContent)
      → AreLoaded f n a
      → f ≤ j
      → j + r < n
      → n ≤ length a
      → shift_contents r j a ≡ ok (shift_down r j a)
  unfolding shift_contents shift_down
  shift_contents-shift_down zero j a h l m k = refl
  shift_contents-shift_down (suc r) j a h l m k =
      rw (copy_content-copy_down a j h l (omega arith) k, shift_contents)
        (shift_contents-shift_down r (suc j) (copy_down a j)
          (Between-copy_down IsLoaded f n a j l (omega arith) h) (omega arith) (omega arith)
          (omega (arith, length-copy_down a j)))

  free_content-freed :
      (a : List SectionContent) (j : ℕ)
      → AreLoaded f n a
      → f ≤ j
      → j < n
      → n ≤ length a
      → free_content a j ≡ ok (freed j a)
  unfolding free_content freed
  free_content-freed a j h l m k =
      let (c, e) = get_elem?-lt a j (omega arith) in free_loaded c e (h j c l m e)
    where
      free_loaded :
          (c : SectionContent)
          → get_elem? a j ≡ some c
          → IsLoaded c
          → free_content a j ≡ ok (freed j a)
      free_loaded c e (loaded b bs q) =
          let p : c.section ≡ block (b ∷ bs) = ap (λ x. x.section) q in
          rw (e, p, free_content, freed)

  pub delete_content-shift_down :
      (i : ℕ) (a : List SectionContent)
      → AreLoaded f n a
      → f ≤ i
      → i < n
      → n ≤ length a
      → delete_content n i a ≡ ok (freed (n - 1) (shift_down (n - suc i) i a))
  unfolding delete_content
  delete_content-shift_down i a h l m k =
      rw (shift_contents-shift_down (n - suc i) i a h l (omega arith) k, delete_content)
        (free_content-freed _ (n - 1)
          (Between-shift_down IsLoaded f n (n - suc i) i a l (omega arith) h) (omega arith)
          (omega arith) (omega (arith, length-shift_down (n - suc i) i a)))

pub length-freed : (j : ℕ) (a : List SectionContent) → length (freed j a) ≡ length a
unfolding freed
length-freed j a = elim (Option-cases (get_elem? a j)) [
  | inl e ↦ rw (e, freed)
  | inr (c, e) ↦ rw (e, freed) (length-set a j (record c { section = uninit }))
]

pub freed-AreLoaded :
    (f n : ℕ) (a : List SectionContent) → AreLoaded f n a → AreLoaded f (n - 1) (freed (n - 1) a)
unfolding freed
freed-AreLoaded f n a h k x p q e = elim (Option-cases (get_elem? a (n - 1))) [
  | inl e' ↦ h k x p (omega arith) (rw (e', freed) at e)
  | inr (c, e') ↦
      let e2 : get_elem? (set a (n - 1) (record c { section = uninit })) k ≡ some x =
        rw (e', freed) at e in
      h k x p (omega arith) (
        sym (
          get_elem?-set_other a (n - 1) k (record c { section = uninit })
            (λ z. absurd (omega (arith, z, q))))
        ∙ e2)
]
