-- ===== src/Genesis.antt =====
-- The genesis of a chain: the patch that node/src/chain_spec and the presets of runtime/src/lib.rs
-- write as a JSON object, and what the runtime's builder (pallet_balances, a crate of the
-- polkadot-sdk) makes of its balances.
use qxchain.Prelude.{
  ℕ, ◌+◌, ◌≤◌, ◌<◌, ◌^◌, ◌≡◌, ◌≢◌, Option, some, List, [], ◌∷◌, ◌++◌, Elem, map, ◌⊎◌, inr, arith,
}
use qxchain.Frame.{ok}
use qxchain.Currency.{Currency}

-- the fields of the object
pub record GenesisPatch (AccountId AuraId GrandpaId : Type 0) : Type 0 where
  pub balances : List (AccountId × ℕ)
  pub aura_authorities : List AuraId
  pub grandpa_authorities : List (GrandpaId × ℕ)
  pub sudo_key : Option AccountId

-- no element stands twice
abbrev pub Distinct : {A : Type 0} → List A → Type 0
Distinct [] = Unit
Distinct (x ∷ xs) = (¬ Elem x xs) × Distinct xs

module _ {A : Type 0} where
  abbrev pub accounts : List (A × ℕ) → List A
  accounts = map (λ (x : A × ℕ). x.0)

  abbrev pub issuance : List (A × ℕ) → ℕ
  issuance [] = 0
  issuance ((_, v) ∷ xs) = v + issuance xs

  -- every balance of the list is at least this
  abbrev pub AllAtLeast : ℕ → List (A × ℕ) → Type 0
  AllAtLeast least [] = Unit
  AllAtLeast least ((_, v) ∷ xs) = (least ≤ v) × AllAtLeast least xs

Elem-snoc : {A : Type 0} (xs : List A) (a x : A) → Elem x (xs ++ a ∷ []) → Elem x xs ⊎ (x ≡ a)
Elem-snoc [] a x h = ground (arith, h)
Elem-snoc (y ∷ ys) a x h = ground (arith, h, Elem-snoc ys a x)

pub Distinct-snoc :
    {A : Type 0} (xs : List A) (a : A) → Distinct xs → ¬ Elem a xs → Distinct (xs ++ a ∷ [])
Distinct-snoc [] a d h = (λ x. x, tt)
Distinct-snoc (y ∷ ys) a d h =
    (λ m. ground (arith, h, d.0, Elem-snoc ys a y m), Distinct-snoc ys a d.1 (λ m. h (inr m)))

-- `GenesisConfig::build` of pallet_balances, which panics on an account that stands twice and on a
-- balance below the existential deposit, with the laws that its documentation states. No balance is
-- locked at genesis, so a transfer succeeds if it leaves both sides alive.
pub record GenesisBuild {A : Type 0} (C : Currency A) : Type 0 where
  pub build : List (A × ℕ) → Option C.Ledger
  pub build_total :
      (xs : List (A × ℕ))
      → Distinct (accounts xs)
      → AllAtLeast C.existential_deposit xs
      → issuance xs < 2 ^ 128
      → (l : C.Ledger) × (build xs ≡ some l)
  pub build_present :
      (xs : List (A × ℕ)) (l : C.Ledger) (a : A) (v : ℕ)
      → build xs ≡ some l
      → Elem (a, v) xs
      → C.free_balance l a ≡ v
  pub build_absent :
      (xs : List (A × ℕ)) (l : C.Ledger) (a : A)
      → build xs ≡ some l
      → ¬ Elem a (accounts xs)
      → C.free_balance l a ≡ 0
  pub build_bounded :
      (xs : List (A × ℕ)) (l : C.Ledger) (a : A)
      → build xs ≡ some l
      → C.free_balance l a ≤ issuance xs
  pub build_transfer :
      (xs : List (A × ℕ)) (l : C.Ledger) (from to : A) (v : ℕ)
      → build xs ≡ some l
      → from ≢ to
      → v + C.existential_deposit ≤ C.free_balance l from
      → C.existential_deposit ≤ v
      → C.free_balance l to + v < 2 ^ 128
      → (l' : C.Ledger) × (C.transfer l from to v ≡ ok l')
