-- ===== src/Stdio/Outcomes.antt =====
-- Equations between outcomes.
use projet_prog.Common.{◌≡◌, ◌⊎◌, inl, inr, refl}
use projet_prog.Stdio.{Outcome, ok, exit, fault}

pub Outcome-cases :
    {A : Type 0} (o : Outcome A) → ((a : A) × (o ≡ ok a)) ⊎ ((o ≡ exit) ⊎ (o ≡ fault))
Outcome-cases (ok a) = inl (a, refl)
Outcome-cases exit = inr (inl refl)
Outcome-cases fault = inr (inr refl)

pub ok-injective : {A : Type 0} {x y : A} → Outcome.ok x ≡ ok y → x ≡ y
ok-injective e = cc

pub ok_not_fault : {A : Type 0} {x : A} → Outcome.fault ≡ ok x → ⊥
ok_not_fault e = absurd cc

pub ok_not_exit : {A : Type 0} {x : A} → Outcome.exit ≡ ok x → ⊥
ok_not_exit e = absurd cc
