-- ===== src/Ai/Ids.antt =====
-- Lists of request ids in ascending order, which is how the queues of
-- pallets/pallet-qx-ai/src/lib.rs hold them: ids are pushed at the end and taken out by `retain`.
use qxchain.Prelude.{
  ℕ, ◌<◌, ◌≡◌, refl, ◌≢◌, ◌⊎◌, inl, inr, not, List, [], ◌∷◌, ◌++◌, arith, retain, Elem, ◌==◌,
  Bool-cases,
}

abbrev pub Ascends : List ℕ → Type 0
Ascends [] = Unit
Ascends (x ∷ xs) = ((i : ℕ) → Elem i xs → x < i) × Ascends xs

-- `retain` as `submit_inference` calls it
abbrev pub without : ℕ → List ℕ → List ℕ
without k = retain (λ id. not (id == k))

pub Elem-snoc : (i n : ℕ) (xs : List ℕ) → Elem i (xs ++ n ∷ []) → Elem i xs ⊎ (i ≡ n)
Elem-snoc i n [] h = ground arith
Elem-snoc i n (x ∷ xs) h = ground (arith, Elem-snoc i n xs)

pub snoc-Elem : (i n : ℕ) (xs : List ℕ) → Elem i xs ⊎ (i ≡ n) → Elem i (xs ++ n ∷ [])
snoc-Elem i n [] h = ground arith
snoc-Elem i n (x ∷ xs) h = ground (arith, snoc-Elem i n xs)

pub Elem-without : (i k : ℕ) (xs : List ℕ) → Elem i (without k xs) → Elem i xs × (i ≢ k)
Elem-without i k [] h = absurd h
Elem-without i k (x ∷ xs) h = ground (arith, Elem-without i k xs)

pub without-Elem : (i k : ℕ) (xs : List ℕ) → Elem i xs → i ≢ k → Elem i (without k xs)
without-Elem i k [] h ne = h
without-Elem i k (x ∷ xs) h ne = ground (arith, without-Elem i k xs)

pub Ascends-snoc :
    (n : ℕ) (xs : List ℕ) → Ascends xs → ((i : ℕ) → Elem i xs → i < n) → Ascends (xs ++ n ∷ [])
Ascends-snoc n [] a below = ((λ i h. absurd h), tt)
Ascends-snoc n (x ∷ xs) a below = (
  λ i h. ground (arith, Elem-snoc i n xs h, a.0 i, below x),
  Ascends-snoc n xs a.1 (λ i h. below i (inr h)),
)

pub Ascends-without : (k : ℕ) (xs : List ℕ) → Ascends xs → Ascends (without k xs)
Ascends-without k [] a = a
Ascends-without k (x ∷ xs) a = elim (Bool-cases (x == k)) [
  | inl same ↦ rw same (Ascends-without k xs a.1)
  | inr other ↦ rw other (λ i h. a.0 i (Elem-without i k xs h).0, Ascends-without k xs a.1)
]

-- A fresh id that is pushed and then taken out leaves the queue as it was.
pub without-snoc : (k : ℕ) (xs : List ℕ) → ¬ Elem k xs → without k (xs ++ k ∷ []) ≡ xs
without-snoc k [] h = ground arith
without-snoc k (x ∷ xs) h = ground (arith, without-snoc k xs)

-- An ascending list is determined by its elements.
pub Ascends-unique :
    (xs ys : List ℕ)
    → Ascends xs
    → Ascends ys
    → ((i : ℕ) → Elem i xs → Elem i ys)
    → ((i : ℕ) → Elem i ys → Elem i xs)
    → xs ≡ ys
Ascends-unique [] [] a b f g = refl
Ascends-unique [] (y ∷ ys) a b f g = absurd (g y (inl refl))
Ascends-unique (x ∷ xs) [] a b f g = absurd (f x (inl refl))
Ascends-unique (x ∷ xs) (y ∷ ys) a b f g =
    let same : x ≡ y = ground (arith, f x (inl refl), g y (inl refl), a.0 y, b.0 x) in
    let rest : xs ≡ ys =
      Ascends-unique xs ys a.1 b.1 (λ i h. ground (arith, f i (inr h), a.0 i h, same))
        (λ i h. ground (arith, g i (inr h), b.0 i h, same)) in
    cc
