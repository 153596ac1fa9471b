-- ===== src/Outcome.antt =====
-- How a run of the parser or the resolver ends, the sequencing of its methods, and the statements
-- `while` and `loop`.
use kuai.Prelude.{ℕ, zero, suc, ◌≡◌, refl}

-- `panicked` is a Rust panic. `out_of_fuel` has no counterpart in the program: the recursion bound
-- of the model was too small.
pub data Outcome {ℓ} (A : Type ℓ) : Type ℓ where
  ok : A → Outcome A
  panicked out_of_fuel : Outcome A

-- What one round of a loop decides: another round, or a `break`.
pub data Flow {ℓ} (A : Type ℓ) : Type ℓ where
  again done : A → Flow A

module _ {ℓ κ} {A : Type ℓ} {B : Type κ} where
  abbrev pub bind : Outcome A → (A → Outcome B) → Outcome B
  bind (ok a) f = f a
  bind panicked f = panicked
  bind out_of_fuel f = out_of_fuel

  -- A sequence that returns: both its parts do.
  pub bind-eq-ok :
      (r : Outcome A) (f : A → Outcome B) {b : B}
      → bind r f ≡ ok b
      → (a : A) × (r ≡ ok a) × (f a ≡ ok b)
  bind-eq-ok (ok a) f e = (a, refl, e)
  bind-eq-ok panicked f e = cc
  bind-eq-ok out_of_fuel f e = cc

module _ {S : Type 0} where
  abbrev pub pure : {A : Type 0} → A → S → Outcome (A × S)
  pure a s = ok (a, s)

  infixl 5 ◌>>=◌ ◌>>◌
  abbrev pub ◌>>=◌ :
      {A B : Type 0} → (S → Outcome (A × S)) → (A → S → Outcome (B × S)) → S → Outcome (B × S)
  ◌>>=◌ m f s = bind (m s) λ (a, s'). f a s'

  abbrev pub ◌>>◌ :
      {A B : Type 0} → (S → Outcome (A × S)) → (S → Outcome (B × S)) → S → Outcome (B × S)
  ◌>>◌ m k s = bind (m s) λ (a, s'). k s'

  abbrev pub gets : {A : Type 0} → (S → A) → S → Outcome (A × S)
  gets f s = ok (f s, s)

  abbrev pub modify : (S → S) → S → Outcome (Unit {0} × S)
  modify f s = ok (tt, f s)

  abbrev pub panic : {A : Type 0} → S → Outcome (A × S)
  panic s = panicked

  -- What follows a round of a loop.
  abbrev pub next_round :
      {A : Type 0} → (A → S → Outcome (A × S)) → Outcome (Flow A × S) → Outcome (A × S)
  next_round more (ok (again a, s)) = more a s
  next_round more (ok (done a, s)) = ok (a, s)
  next_round more panicked = panicked
  next_round more out_of_fuel = out_of_fuel

  -- At most as many rounds as the fuel.
  unfoldable pub loop : {A : Type 0} → ℕ → (A → S → Outcome (Flow A × S)) → A → S → Outcome (A × S)
  loop zero body a s = out_of_fuel
  loop (suc n) body a s = next_round (loop n body) (body a s)
