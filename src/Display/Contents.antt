-- ===== src/Display/Contents.antt =====
-- `printSectionContent` and `printSectionContentOne` of Functions/readSectionContent.c.
use projet_prog.Common.{
  ℕ, zero, suc, ◌%◌, List, [], ◌∷◌, ◌++◌, none, some, ◌==◌, ◌&&◌, not, ltb, if◌then◌else◌,
  get_elem?,
}
use projet_prog.Stdio.{Outcome, ok, exit, fault}
use projet_prog.Elf.{Shdr, SectionContent, uninit, null, block}
use projet_prog.Display.Item.{Item, text, dec, hex}

-- What stands before byte `j`: a new line every 16 bytes, a space every 4.
unfoldable pub separator : ℕ → List Item
separator j =
    if j % 16 == 0 && not (j == 0)
    then text "\n" ∷ []
    else if j % 4 == 0 && not (j == 0)
    then text " " ∷ []
    else []

-- The loop over the `n` bytes left, from byte `j` on.
unfoldable pub dump_bytes : ℕ → ℕ → List ℕ → Outcome (List Item)
dump_bytes zero j bs = ok []
dump_bytes (suc n) j [] = fault
dump_bytes (suc n) j (b ∷ bs) = elim (dump_bytes n (suc j) bs) [
  | ok more ↦ ok (separator j ++ (hex 2 b ∷ more))
  | exit ↦ exit
  | fault ↦ fault
]

-- The bytes of a section, as many as its header says.
unfoldable pub dump : Shdr → SectionContent → Outcome (List Item)
dump s c = elim c.section [
  | uninit ↦ if s.sh_size == 0 then ok [] else fault
  | null ↦ if s.sh_size == 0 then ok [] else fault
  | block bs ↦ dump_bytes s.sh_size 0 bs
]

-- One round: the heading, the bytes, an empty line.
unfoldable pub print_content : ℕ → Shdr → SectionContent → Outcome (List Item)
print_content i s c = elim (dump s c) [
  | ok items ↦ ok (
      (text "Section " ∷ dec i ∷ text ": " ∷ dec c.size ∷ text "\n" ∷ [])
      ++ (items ++ (text "\n\n" ∷ [])))
  | exit ↦ exit
  | fault ↦ fault
]

unfoldable pub print_contents : ℕ → ℕ → List Shdr → List SectionContent → Outcome (List Item)
print_contents zero i sects contents = ok []
print_contents (suc n) i [] contents = fault
print_contents (suc n) i (s ∷ sects) [] = fault
print_contents (suc n) i (s ∷ sects) (c ∷ contents) = elim (print_content i s c) [
  | exit ↦ exit
  | fault ↦ fault
  | ok front ↦ elim (print_contents n (suc i) sects contents) [
    | ok more ↦ ok (front ++ more)
    | exit ↦ exit
    | fault ↦ fault
  ]
]

-- printSectionContentOne, for a number that is not negative.
unfoldable pub print_content_one : ℕ → List Shdr → List SectionContent → ℕ → Outcome (List Item)
print_content_one shnum sects contents i =
    if ltb i shnum
    then elim (get_elem? sects i) [
      | none ↦ fault
      | some s ↦ elim (get_elem? contents i) [
        | none ↦ fault
        | some c ↦
            if s.sh_size == 0
            then ok (
                text "Section "
                ∷ dec i
                ∷ text ": "
                ∷ dec c.size
                ∷ text "\n"
                ∷ text "no data to dump."
                ∷ text "\n\n"
                ∷ [])
            else print_content i s c
      ]
    ]
    else ok (text "dump." ∷ [])
