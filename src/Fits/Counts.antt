-- ===== src/Fits/Counts.antt =====
-- Removing a section leaves as many contents as there were.
use projet_prog.Common.{
  ℕ, zero, suc, ◌-◌, ◌≡◌, sym, ap, ◌∙◌, List, length, length-set, get_elem?, Option-cases, inl, inr,
}
use projet_prog.Stdio.{ok}
use projet_prog.Stdio.Outcomes.{Outcome-cases, ok-injective, ok_not_exit, ok_not_fault}
use projet_prog.Elf.{SectionContent, uninit, Buffer-cases}
use projet_prog.Implantation.Delete.{
  move_block, copy_content, shift_contents, free_content, delete_content,
}

copy_content-length :
    (a : List SectionContent) (j : ℕ) {a' : List SectionContent}
    → copy_content a j ≡ ok a'
    → length a' ≡ length a
unfolding copy_content
copy_content-length a j e = elim (Option-cases (get_elem? a j)) [
  | inl p ↦ absurd (ok_not_fault (rw (p, copy_content) at e))
  | inr (old, p) ↦ elim (Option-cases (get_elem? a (suc j))) [
    | inl q ↦ absurd (ok_not_fault (rw (p, q, copy_content) at e))
    | inr (c, q) ↦ elim (Outcome-cases (move_block old.section c.section c.size)) [
      | inl (b, r) ↦
          ap length (sym (ok-injective (rw (p, q, r, copy_content) at e)))
          ∙ length-set a j (record { section = b; size = c.size })
      | inr (inl r) ↦ absurd (ok_not_exit (rw (p, q, r, copy_content) at e))
      | inr (inr r) ↦ absurd (ok_not_fault (rw (p, q, r, copy_content) at e))
    ]
  ]
]

shift_contents-length :
    (n j : ℕ) (a : List SectionContent) {a' : List SectionContent}
    → shift_contents n j a ≡ ok a'
    → length a' ≡ length a
unfolding shift_contents
shift_contents-length zero j a e = ap length (sym (ok-injective e))
shift_contents-length (suc n) j a e = elim (Outcome-cases (copy_content a j)) [
  | inl (b, p) ↦
      shift_contents-length n (suc j) b (rw (p, shift_contents) at e) ∙ copy_content-length a j p
  | inr (inl p) ↦ absurd (ok_not_exit (rw (p, shift_contents) at e))
  | inr (inr p) ↦ absurd (ok_not_fault (rw (p, shift_contents) at e))
]

free_content-length :
    (a : List SectionContent) (j : ℕ) {a' : List SectionContent}
    → free_content a j ≡ ok a'
    → length a' ≡ length a
unfolding free_content
free_content-length a j e = elim (Option-cases (get_elem? a j)) [
  | inl p ↦ absurd (ok_not_fault (rw (p, free_content) at e))
  | inr (c, p) ↦ elim (Buffer-cases c.section) [
    | inl q ↦ absurd (ok_not_fault (rw (p, q, free_content) at e))
    | inr (inl q) ↦ ap length (sym (ok-injective (rw (p, q, free_content) at e)))
    | inr (inr (bs, q)) ↦
        ap length (sym (ok-injective (rw (p, q, free_content) at e)))
        ∙ length-set a j (record c { section = uninit })
  ]
]

pub delete_content-length :
    (n i : ℕ) (a : List SectionContent) {a' : List SectionContent}
    → delete_content n i a ≡ ok a'
    → length a' ≡ length a
unfolding delete_content
delete_content-length n i a e = elim (Outcome-cases (shift_contents (n - suc i) i a)) [
  | inl (b, p) ↦
      free_content-length b (n - 1) (rw (p, delete_content) at e)
      ∙ shift_contents-length (n - suc i) i a p
  | inr (inl p) ↦ absurd (ok_not_exit (rw (p, delete_content) at e))
  | inr (inr p) ↦ absurd (ok_not_fault (rw (p, delete_content) at e))
]
