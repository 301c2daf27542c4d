-- ===== src/Frame/Keys.antt =====
-- A type whose values can be keys of a storage map: equality is decided.
use qxchain.Prelude.{ℕ, Bool, true, false, List, [], ◌∷◌, refl, ite, ℕ_discrete}

pub record Key (K : Type 0) : Type 0 where
  pub dec : Discrete K

instance abbrev pub nat_key : Key ℕ
nat_key = record { dec = ℕ_discrete }

unfoldable pub bytes_discrete : Discrete (List ℕ)
bytes_discrete [] [] = yes refl
bytes_discrete [] (y ∷ ys) = no (λ e. cc)
bytes_discrete (x ∷ xs) [] = no (λ e. cc)
bytes_discrete (x ∷ xs) (y ∷ ys) =
    let rest = bytes_discrete xs ys in
    elim (ℕ_discrete x y) [
      | yes p ↦ elim rest [ yes q ↦ yes (cc) | no q ↦ no (λ e. q (cc)) ]
      | no p ↦ no (λ e. p (cc))
    ]

-- an array of bytes, such as `[u8; 32]`
instance abbrev pub bytes_key : Key (List ℕ)
bytes_key = record { dec = bytes_discrete }

-- `PartialEq` as a Boolean test
abbrev pub eqb : {K : Type 0} ⦃key : Key K⦄ → K → K → Bool
eqb ⦃key⦄ a b = ite (key.dec a b) true false

-- a function, with another value at one key
abbrev pub update : {K V : Type 0} ⦃key : Key K⦄ → (K → V) → K → V → K → V
update ⦃key⦄ f k v j = ite (key.dec k j) v (f j)
