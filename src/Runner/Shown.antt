-- ===== src/Runner/Shown.antt =====
-- The options that only print, and those that need a destination.
use projet_prog.Common.{ℕ, ◌≡◌, inl, inr, sym, ap, ◌∙◌, List, [], ◌∷◌, none, some, All}
use projet_prog.Stdio.{M, Outcome, ok, exit, fault}
use projet_prog.Stdio.Outcomes.{Outcome-cases, ok-injective, ok_not_exit, ok_not_fault}
use projet_prog.Display.Item.{Item}
use projet_prog.Elf.{ElfMain}
use projet_prog.Writer.{TempTab}
use projet_prog.Runner.{
  Command, show_header, show_sections, show_symbols, show_relocs, show_contents, show_all,
  show_content, copy, delete, named, unknown, move_text, move_data, Session, show_from, show_items,
  save, relocate, delete_and_save, run_command, run_commands,
}

-- An option that writes no file.
unfoldable pub IsShow : Command → Type 0
IsShow show_header = Unit {0}
IsShow show_sections = Unit {0}
IsShow show_symbols = Unit {0}
IsShow show_relocs = Unit {0}
IsShow show_contents = Unit {0}
IsShow show_all = Unit {0}
IsShow (show_content _) = Unit {0}
IsShow copy = ⊥
IsShow delete = ⊥
IsShow named = Unit {0}
IsShow unknown = ⊥
IsShow (move_text _) = ⊥
IsShow (move_data _) = ⊥

-- The structure and the destination are as before.
unfoldable pub SameFiles : Session → Session → Type 0
SameFiles s s' = (s'.elf ≡ s.elf) × (s'.dest ≡ s.dest)

show_from-SameFiles :
    (m : M (List Item)) (s : Session) {s' : Session} → show_from m s ≡ ok s' → SameFiles s s'
unfolding show_from SameFiles
show_from-SameFiles m s e = elim (Outcome-cases (m s.source)) [
  | inl (a, p) ↦
      let q = ok-injective (rw (p, show_from) at e) in
      (sym (ap (λ x. x.elf) q), sym (ap (λ x. x.dest) q))
  | inr (inl p) ↦ absurd (ok_not_exit (rw (p, show_from) at e))
  | inr (inr p) ↦ absurd (ok_not_fault (rw (p, show_from) at e))
]

show_items-SameFiles :
    (o : Outcome (List Item)) (s : Session) {s' : Session} → show_items o s ≡ ok s' → SameFiles s s'
unfolding show_items SameFiles
show_items-SameFiles (ok items) s e =
    let q = ok-injective e in (sym (ap (λ x. x.elf) q), sym (ap (λ x. x.dest) q))
show_items-SameFiles exit s e = absurd (ok_not_exit e)
show_items-SameFiles fault s e = absurd (ok_not_fault e)

module _ (qsort : List TempTab → List TempTab) where
  save_exit : (e : ElfMain) (s : Session) → s.dest ≡ none → save qsort e s ≡ exit
  unfolding save
  save_exit e s h = rw h

  relocate_exit :
      (text data_addr : ℕ) (s : Session) → s.dest ≡ none → relocate qsort text data_addr s ≡ exit
  unfolding relocate
  relocate_exit text data_addr s h = rw h

  delete_and_save_exit : (s : Session) → s.dest ≡ none → delete_and_save qsort s ≡ exit
  unfolding delete_and_save
  delete_and_save_exit s h = rw h

  pub run_command-SameFiles :
      (c : Command) (s : Session) {s' : Session}
      → IsShow c
      → run_command qsort c s ≡ ok s'
      → SameFiles s s'
  unfolding run_command IsShow SameFiles
  run_command-SameFiles show_header s w e = show_items-SameFiles _ s e
  run_command-SameFiles show_sections s w e = show_from-SameFiles _ s e
  run_command-SameFiles show_symbols s w e = show_from-SameFiles _ s e
  run_command-SameFiles show_relocs s w e = show_from-SameFiles _ s e
  run_command-SameFiles show_contents s w e = show_items-SameFiles _ s e
  run_command-SameFiles show_all s w e = show_from-SameFiles _ s e
  run_command-SameFiles (show_content none) s w e = absurd (ok_not_fault e)
  run_command-SameFiles (show_content (some i)) s w e = show_items-SameFiles _ s e
  run_command-SameFiles copy s w e = absurd w
  run_command-SameFiles delete s w e = absurd w
  run_command-SameFiles named s w e =
      let q = ok-injective e in (sym (ap (λ x. x.elf) q), sym (ap (λ x. x.dest) q))
  run_command-SameFiles unknown s w e = absurd w
  run_command-SameFiles (move_text a) s w e = absurd w
  run_command-SameFiles (move_data a) s w e = absurd w

  -- Without a destination the other options make the program exit.
  run_command-IsShow :
      (c : Command) (s : Session) {s' : Session}
      → s.dest ≡ none
      → run_command qsort c s ≡ ok s'
      → IsShow c
  unfolding run_command IsShow
  run_command-IsShow show_header s h e = tt
  run_command-IsShow show_sections s h e = tt
  run_command-IsShow show_symbols s h e = tt
  run_command-IsShow show_relocs s h e = tt
  run_command-IsShow show_contents s h e = tt
  run_command-IsShow show_all s h e = tt
  run_command-IsShow (show_content i) s h e = tt
  run_command-IsShow copy s h e = ok_not_exit (sym (save_exit s.elf s h) ∙ e)
  run_command-IsShow delete s h e = ok_not_exit (sym (delete_and_save_exit s h) ∙ e)
  run_command-IsShow named s h e = tt
  run_command-IsShow unknown s h e = ok_not_exit e
  run_command-IsShow (move_text a) s h e = ok_not_exit (sym (relocate_exit a 0 s h) ∙ e)
  run_command-IsShow (move_data a) s h e = ok_not_exit (sym (relocate_exit 0 a s h) ∙ e)

  -- A run of options that only print, where it succeeds, leaves the structure and the destination.
  pub run_commands-SameFiles :
      (cs : List Command) (s : Session) {s' : Session}
      → All IsShow cs
      → run_commands qsort cs s ≡ ok s'
      → SameFiles s s'
  unfolding run_commands SameFiles
  run_commands-SameFiles [] s w e =
      let q = ok-injective e in (sym (ap (λ x. x.elf) q), sym (ap (λ x. x.dest) q))
  run_commands-SameFiles (c ∷ cs) s (v, w) e = elim (Outcome-cases (run_command qsort c s)) [
    | inl (s1, p) ↦
        let (a, b) = run_command-SameFiles c s v p in
        let (a', b') = run_commands-SameFiles cs s1 w (rw (p, run_commands) at e) in
        (a' ∙ a, b' ∙ b)
    | inr (inl p) ↦ absurd (ok_not_exit (rw (p, run_commands) at e))
    | inr (inr p) ↦ absurd (ok_not_fault (rw (p, run_commands) at e))
  ]

  -- Where a run of options succeeds that starts without a destination, no option of it was to write
  -- a file, and the structure and the missing destination are as they were.
  pub run_commands_without_dest :
      (cs : List Command) (s : Session) {s' : Session}
      → s.dest ≡ none
      → run_commands qsort cs s ≡ ok s'
      → All IsShow cs × (s'.elf ≡ s.elf) × (s'.dest ≡ none)
  unfolding run_commands SameFiles
  run_commands_without_dest [] s h e =
      let q = ok-injective e in (tt, sym (ap (λ x. x.elf) q), sym (ap (λ x. x.dest) q) ∙ h)
  run_commands_without_dest (c ∷ cs) s h e = elim (Outcome-cases (run_command qsort c s)) [
    | inl (s1, p) ↦
        let v = run_command-IsShow c s h p in
        let (a, b) = run_command-SameFiles c s v p in
        let (w, a', b') = run_commands_without_dest cs s1 (b ∙ h) (rw (p, run_commands) at e) in
        ((v, w), a' ∙ a, b')
    | inr (inl p) ↦ absurd (ok_not_exit (rw (p, run_commands) at e))
    | inr (inr p) ↦ absurd (ok_not_fault (rw (p, run_commands) at e))
  ]
