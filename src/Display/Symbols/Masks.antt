-- ===== src/Display/Symbols/Masks.antt =====
-- The masks that `print_symbol` puts over the type and the binding of a symbol.
use projet_prog.Common.{
  ℕ, ◌%◌, all_below, all_below_holds, both, ◌<◌, ◌≡◌, refl, ap, Bool, true, ◌&&◌, ◌==◌, ==→eq,
  bit_and,
}
use projet_prog.Elf.{st_bind, st_type}
use projet_prog.Display.Symbols.{type_name, bind_name, shown_type, shown_bind}

are_masks : ℕ → Bool
are_masks info =
    (bit_and info (st_type info) == st_type info) && (bit_and 1 (st_bind info) == st_bind info % 2)

are_masks_below : (info : ℕ) → info < 256 → are_masks info ≡ true
unfolding are_masks all_below
are_masks_below info h = all_below_holds are_masks 256 info refl h

-- For every st_info of one byte the mask over the type changes nothing, so the type shown is that
-- of the symbol, but the one over the binding keeps its lowest bit only: the binding shown is that
-- of the remainder by 2, and a weak symbol is shown as a local one.
pub shown_symbol_names :
    (info : ℕ)
    → info < 256
    → (shown_type info ≡ type_name (st_type info))
      × (shown_bind info ≡ bind_name (st_bind info % 2))
unfolding shown_type shown_bind are_masks
shown_symbol_names info h =
    let (p, q) = both _ _ (are_masks_below info h) in
    (ap type_name (==→eq _ _ p), ap bind_name (==→eq _ _ q))
