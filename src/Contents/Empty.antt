-- ===== src/Contents/Empty.antt =====
-- What `load_section_content` stores for a section without bytes.
use projet_prog.Common.{
  ℕ, zero, suc, ◌<◌, ◌≡◌, sym, ap, List, [], ◌∷◌, some, arith, get_elem?, eq→==,
}
use projet_prog.Stdio.{fseek}
use projet_prog.Stdio.Gives.{Gives, bind-Gives, any_Gives, pure-Gives}
use projet_prog.Stdio.Outcomes.{ok-injective, ok_not_fault}
use projet_prog.Elf.{Ehdr, Shdr, SectionContent, uninit}
use projet_prog.Contents.{load_content, load_contents, load_section_content}

abbrev pub unset : SectionContent
unset = record { section = uninit; size = 0 }

-- Each of the first `n` sections that has size 0 has a content that was never set.
unfoldable pub AreUnset : ℕ → List Shdr → List SectionContent → Type 0
AreUnset n sects cs =
    (i : ℕ)
    → (s : Shdr) → i < n
    → get_elem? sects i ≡ some s
    → s.sh_size ≡ 0
    → get_elem? cs i ≡ some unset

load_content-Gives :
    (h : Ehdr) (sects : List Shdr) (n : ℕ) (s : Shdr) (l : List Shdr)
    → Gives (load_content h sects n s l) (λ c. s.sh_size ≡ 0 → unset ≡ c)
unfolding load_content
load_content-Gives h sects n s l f c f' e z =
    ap (λ x. x.0) (ok-injective (rw (eq→== s.sh_size 0 z, load_content) at e))

load_contents-Gives :
    (h : Ehdr) (sects : List Shdr) (n : ℕ) (l : List Shdr)
    → Gives (load_contents h sects n l) (AreUnset n l)
unfolding load_contents AreUnset
load_contents-Gives h sects zero l = λ f cs f' e i s b g z. absurd (omega arith)
load_contents-Gives h sects (suc n) [] = λ f cs f' e. absurd (ok_not_fault e)
load_contents-Gives h sects (suc n) (x ∷ l) =
    bind-Gives (load_content h sects n x l) _ (load_content-Gives h sects n x l) λ c p.
      bind-Gives (load_contents h sects n l) _ (load_contents-Gives h sects n l)
        λ cs q. pure-Gives (AreUnset (suc n) (x ∷ l)) _ (both c cs p q)
  where
    both :
        (c : SectionContent) (cs : List SectionContent)
        → (x.sh_size ≡ 0 → unset ≡ c)
        → AreUnset n l cs
        → AreUnset (suc n) (x ∷ l) (c ∷ cs)
    both c cs p q zero s b g z = ap some (sym (p (ground arith)))
    both c cs p q (suc i) s b g z = q i s (omega arith) g z

pub load_section_content-Gives :
    (h : Ehdr) (sects : List Shdr) → Gives (load_section_content h sects) (AreUnset h.e_shnum sects)
unfolding load_section_content
load_section_content-Gives h sects =
    any_Gives (fseek h.e_ehsize) _ λ u. load_contents-Gives h sects h.e_shnum sects
