-- ===== src/Simulator/Connect.antt =====
-- Which address `arm_connect` takes.
use projet_prog.Common.{
  ℕ, ◌≡◌, ◌⊎◌, inl, inr, refl, ◌∙◌, Bool, true, false, Option, none, some, List, [], ◌∷◌, ◌++◌, All,
}
use projet_prog.Stdio.{ok, exit}
use projet_prog.Scanner.{Token}
use projet_prog.Simulator.{init_data, try_addresses, arm_connect}

module _ {A : Type 0} (socket : A → Option ℕ) (connect : ℕ → A → Bool) where
  -- No socket, or one that does not connect.
  unfoldable pub Refuses : A → Type 0
  Refuses a = (socket a ≡ none) ⊎ ((s : ℕ) × (socket a ≡ some s) × (connect s a ≡ false))

  try_addresses-Refuses :
      (a : A) (l : List A)
      → Refuses a
      → try_addresses socket connect (a ∷ l) ≡ try_addresses socket connect l
  unfolding try_addresses Refuses
  try_addresses-Refuses a l (inl e) = rw (e, try_addresses)
  try_addresses-Refuses a l (inr (s, e, f)) = rw (e, f, try_addresses)

  try_addresses_first :
      (front : List A) (a : A) (back : List A) (s : ℕ)
      → All Refuses front
      → socket a ≡ some s
      → connect s a ≡ true
      → try_addresses socket connect (front ++ (a ∷ back)) ≡ some s
  unfolding try_addresses
  try_addresses_first [] a back s w e f = rw (e, f, try_addresses)
  try_addresses_first (x ∷ front) a back s (r, w) e f =
      try_addresses-Refuses x (front ++ (a ∷ back)) r ∙ try_addresses_first front a back s w e f

  try_addresses-none : (l : List A) → All Refuses l → try_addresses socket connect l ≡ none
  unfolding try_addresses
  try_addresses-none [] w = refl
  try_addresses-none (x ∷ l) (r, w) = try_addresses-Refuses x l r ∙ try_addresses-none l w

  -- If the addresses before one that connects refuse, `arm_connect` succeeds with the socket of that
  -- one, and nothing has been sent.
  arm_connect_first :
      (front : List A) (a : A) (back : List A) (s : ℕ) (incoming : List Token)
      → All Refuses front
      → socket a ≡ some s
      → connect s a ≡ true
      → arm_connect socket connect (front ++ (a ∷ back)) incoming
        ≡ ok (
            some (record {
              fd = s;
              last = [];
              sent = [];
              errors = 0;
              answer = none;
              incoming = incoming;
            }))
  unfolding arm_connect init_data
  arm_connect_first front a back s incoming w e f =
      rw (try_addresses_first front a back s w e f, arm_connect)

  -- If all addresses refuse, `arm_connect` ends the program.
  arm_connect_exit :
      (l : List A) (incoming : List Token)
      → All Refuses l
      → arm_connect socket connect l incoming ≡ exit
  unfolding arm_connect
  arm_connect_exit l incoming w = rw (try_addresses-none l w, arm_connect)
