-- ===== src/Node/Outcome.antt =====
-- How a function of the node ends: with a value, with an error message, or in a panic of `unwrap`
-- or `expect`.
use qxchain.Prelude.{◌≡◌, refl, Option, none, some}
use Prim.Native.String.{String}

pub data Outcome (A : Type 0) : Type 0 where
  value : A → Outcome A
  error : String → Outcome A
  panicked : Outcome A

infixl 5 ◌>>=◌
abbrev pub ◌>>=◌ : {A B : Type 0} → Outcome A → (A → Outcome B) → Outcome B
value a >>= f = f a
error e >>= f = error e
panicked >>= f = panicked

-- `Option::unwrap`, `Result::unwrap` and `expect`
abbrev pub unwrap : {A : Type 0} → Option A → Outcome A
unwrap none = panicked
unwrap (some a) = value a

-- `Option::ok_or` under `?`
abbrev pub ok_or : {A : Type 0} → Option A → String → Outcome A
ok_or none e = error e
ok_or (some a) e = value a

-- How a chain of two steps ended in a value.
pub >>=-eq-value :
    {A B : Type 0} (m : Outcome A) (f : A → Outcome B) (b : B)
    → (m >>= f) ≡ value b
    → (a : A) × (m ≡ value a) × (f a ≡ value b)
>>=-eq-value (value a) f b h = (a, refl, h)
>>=-eq-value (error e) f b h = cc
>>=-eq-value panicked f b h = cc

pub value_inj : {A : Type 0} (a b : A) → value a ≡ value b → a ≡ b
value_inj a b h = cc

-- The call ends in a value.
abbrev pub Ends : {A : Type 0} → Outcome A → Type 0
Ends {A} o = (a : A) × (o ≡ value a)

pub >>=-Ends :
    {A B : Type 0} (m : Outcome A) (f : A → Outcome B)
    → Ends m
    → ((a : A) → Ends (f a))
    → Ends (m >>= f)
>>=-Ends m f (a, e) g = rw e (g a)
