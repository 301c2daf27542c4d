-- ===== src/Frame/Call.antt =====
-- A call of a pallet: state and errors. What was written before an error stays written here; the
-- storage layer that takes it back is around a dispatched call, not inside it.
use qxchain.Prelude.{⊤, ◌≡◌, refl, ◌⊎◌, inl, inr, Bool, true, false, Option, none, some}
use qxchain.Errors.{DispatchError}

pub data Result (A : Type 0) : Type 0 where
  ok : A → Result A
  err : DispatchError → Result A

-- To split on a computed result and keep the equation.
pub Result-cases :
    {A : Type 0} (r : Result A) → ((e : DispatchError) × (r ≡ err e)) ⊎ ((a : A) × (r ≡ ok a))
Result-cases (ok a) = inr (a, refl)
Result-cases (err e) = inl (e, refl)

-- `Option::ok_or`
abbrev pub ok_or : {A : Type 0} → Option A → DispatchError → Result A
ok_or none e = err e
ok_or (some a) e = ok a

-- `Result::map_err` with a constant function
abbrev pub map_err : {A : Type 0} → Result A → DispatchError → Result A
map_err (ok a) e = ok a
map_err (err _) e = err e

-- `Option::as_ref().is_none()`, and what `match r { Ok(valid) => valid, Err(_) => false }` gives
abbrev pub is_none : {A : Type 0} → Option A → Bool
is_none none = true
is_none (some a) = false

abbrev pub ok_or_false : Result Bool → Bool
ok_or_false (ok valid) = valid
ok_or_false (err _) = false

abbrev pub Exec : Type 0 → Type 0 → Type 0
Exec S A = S → Result A × S

module _ {S A : Type 0} where
  abbrev pub pure : A → Exec S A
  pure a s = (ok a, s)

  -- a value of type `Result` under `?`
  abbrev pub lift : Result A → Exec S A
  lift r s = (r, s)

  -- a read of the storage
  abbrev pub gets : (S → A) → Exec S A
  gets f s = (ok (f s), s)

infixl 5 ◌>>=◌ ◌>>◌
abbrev pub ◌>>=◌ : {S A B : Type 0} → Exec S A → (A → Exec S B) → Exec S B
◌>>=◌ m f s = let (r, s') = m s in elim r [ ok a ↦ f a s' | err e ↦ (err e, s') ]

abbrev pub ◌>>◌ : {S B : Type 0} → Exec S ⊤ → Exec S B → Exec S B
m >> k = m >>= λ _. k

module _ {S : Type 0} where
  -- `ensure!`
  abbrev pub ensure : Bool → DispatchError → Exec S ⊤
  ensure true e s = (ok tt, s)
  ensure false e s = (err e, s)

  -- a write of the storage
  abbrev pub modify : (S → S) → Exec S ⊤
  modify f s = (ok tt, f s)

-- A layer keeps what a successful call wrote, and takes back what a failed one wrote.
abbrev pub settle : {S A : Type 0} → S → Result A × S → Result A × S
settle s (ok a, s') = (ok a, s')
settle s (err e, s') = (err e, s)
