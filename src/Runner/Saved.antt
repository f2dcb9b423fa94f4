-- ===== src/Runner/Saved.antt =====
-- The file that `write_elf` leaves, read again.
use mathlib.Core.List.{append_assoc}
use projet_prog.Common.{◌≡◌, List, ◌++◌, inl, inr}
use projet_prog.Stdio.{Stream, Dest, ok, at}
use projet_prog.Stdio.Outcomes.{Outcome-cases, ok_not_exit, ok_not_fault}
use projet_prog.Elf.{ElfMain}
use projet_prog.Header.{load_header, write_header}
use projet_prog.Header.RoundTrip.{IsEhdr, load_header-write_header}
use projet_prog.Writer.{TempTab, write_section_content}
use projet_prog.Writer.Behind.{
  IsBehind, IsBehind-trans, write_section_content-IsBehind, write_section_header-IsBehind,
}
use projet_prog.Runner.{write_elf}

write_elf-IsBehind :
    (qsort : List TempTab → List TempTab) (e : ElfMain) (d : Dest) {d' : Dest}
    → write_elf qsort e d ≡ ok d'
    → IsBehind (write_header e.header d) d'
unfolding write_elf
write_elf-IsBehind qsort e d h =
    elim (Outcome-cases (write_section_content qsort e (write_header e.header d))) [
      | inl (d1, p) ↦
          IsBehind-trans _ d1 _ (write_section_content-IsBehind qsort e (write_header e.header d) p)
            (write_section_header-IsBehind e d1 (rw (p, write_elf) at h))
      | inr (inl p) ↦ absurd (ok_not_exit (rw (p, write_elf) at h))
      | inr (inr p) ↦ absurd (ok_not_fault (rw (p, write_elf) at h))
    ]

-- Whatever qsort does, and whatever the destination held: where `write_elf` succeeds on a program
-- whose header is a 32-bit ELF header with fields that fit, `load_header` reads this header back
-- from the start of the file written.
load_header-write_elf :
    (qsort : List TempTab → List TempTab) (e : ElfMain) (d : Dest) {d' : Dest} (f : Stream)
    → IsEhdr e.header
    → write_elf qsort e d ≡ ok d'
    → (f' : Stream) × (load_header (at f (d'.before ++ d'.behind)) ≡ ok (e.header, f'))
unfolding IsBehind
load_header-write_elf qsort e d {d'} f w h =
    let (bs, p) = write_elf-IsBehind qsort e d h in
    (
      at f (bs ++ d'.behind),
      rw (p, append_assoc) (load_header-write_header e.header d f (bs ++ d'.behind) w),
    )
