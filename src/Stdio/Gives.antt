-- ===== src/Stdio/Gives.antt =====
-- What the value of a successful step is, whatever stream it reads from.
use projet_prog.Common.{◌≡◌, ap, subst}
use projet_prog.Stdio.{M, ◌>>=◌, pure, Stream, Outcome, ok, exit, fault, bind_inv}

abbrev pub Gives : {A : Type 0} → M A → (A → Type 0) → Type 0
Gives {A} m P = (f : Stream) → (a : A) (f' : Stream) → m f ≡ ok (a, f') → P a

value : {A : Type 0} → A → Outcome (A × Stream) → A
value x (ok (y, _)) = y
value x exit = x
value x fault = x

pub pure-Gives : {A : Type 0} → (P : A → Type 0) → (x : A) → P x → Gives (pure x) P
unfolding value
pure-Gives P x p f a f' e = subst P (ap (value x) e) p

pub bind-Gives :
    {A B : Type 0}
    → (m : M A) → (k : A → M B) → {P : A → Type 0} → {Q : B → Type 0} → Gives m P
    → ((a : A) → P a → Gives (k a) Q)
    → Gives (m >>= k) Q
bind-Gives m k p q f b f' e = let (a, g, e1, e2) = bind_inv m k f e in q a (p f a g e1) g b f' e2

pub any_Gives :
    {A B : Type 0}
    → (m : M A) → (k : A → M B) → {Q : B → Type 0} → ((a : A) → Gives (k a) Q)
    → Gives (m >>= k) Q
any_Gives m k q = bind-Gives m k {P = λ _. Unit {0}} (unconditional m) (λ a _. q a)
  where
    unconditional : {A : Type 0} → (m : M A) → Gives m (λ _. Unit {0})
    unconditional m f a f' e = tt
