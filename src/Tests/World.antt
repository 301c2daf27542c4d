-- ===== src/Tests/World.antt =====
-- A concrete storage, origin and currency, over accounts of any type that can be a key: the
-- parameters of the development have an instance. A map is an association list whose first entry
-- for a key counts, and a ledger gives each account its balance.
use qxchain.Prelude.{
  ℕ, ◌+◌, ◌-◌, ◌≤◌, ◌<◌, ◌≡◌, refl, ◌≢◌, ◌<◌, ◌↔◌, ◌⊎◌, Bool, true, false, Option, none, some, List,
  [], ◌∷◌, ◌++◌, ite, leb, ltb, length, Elem, if◌then◌else◌, arith,
}
use qxchain.Errors.{currency}
use qxchain.Frame.{Frame, Key, nat_key, bytes_key, Result, ok, err, settle, eqb}
use qxchain.Frame.Order.{Order}
use qxchain.Currency.{Currency}

module _ {K V : Type 0} ⦃key : Key K⦄ where
  abbrev get : List (K × V) → K → Option V
  get [] j = none
  get ((k, v) ∷ m) j = ite (key.dec k j) (some v) (get m j)

  abbrev insert : List (K × V) → K → V → List (K × V)
  insert m k v = (k, v) ∷ m

  abbrev remove : List (K × V) → K → List (K × V)
  remove [] k = []
  remove ((j, v) ∷ m) k = let rest = remove m k in ite (key.dec k j) rest ((j, v) ∷ rest)

  abbrev iter : List (K × V) → List (K × V)
  iter [] = []
  iter ((k, v) ∷ m) = (k, v) ∷ remove (iter m) k

  pub get-remove :
      (m : List (K × V)) (k j : K) → get (remove m k) j ≡ ite (key.dec k j) none (get m j)
  get-remove [] k j = ground arith
  get-remove ((i, v) ∷ m) k j = ground (arith, get-remove m k j)

  Elem-remove :
      (m : List (K × V)) (k j : K) (v : V) → Elem (j, v) (remove m k) ↔ ((k ≢ j) × Elem (j, v) m)
  Elem-remove [] k j v = ground arith
  Elem-remove ((i, w) ∷ m) k j v = ground (arith, Elem-remove m k j v)

  pub iter-get : (m : List (K × V)) (k : K) (v : V) → Elem (k, v) (iter m) ↔ (get m k ≡ some v)
  iter-get [] k v = ground arith
  iter-get ((i, w) ∷ m) k v = ground (arith, Elem-remove (iter m) i k v, iter-get m k v)

pub data Origin (A : Type 0) : Type 0 where
  signed : A → Origin A
  root unsigned : Origin A

module _ {A : Type 0} where
  abbrev ensure_signed : Origin A → Option A
  ensure_signed (signed a) = some a
  ensure_signed _ = none

  abbrev ensure_root : Origin A → Bool
  ensure_root root = true
  ensure_root _ = false

  abbrev ensure_none : Origin A → Bool
  ensure_none unsigned = true
  ensure_none _ = false

abbrev pub frame_over : (A : Type 0) → (A → List ℕ) → Frame A
frame_over A hash = record {
  Map = λ K V. List (K × V);
  empty = [];
  get = get;
  insert = insert;
  remove = remove;
  iter = iter;
  get-empty = λ j. refl;
  get-insert = λ m k v j. refl;
  get-remove = get-remove;
  iter-get = iter-get;
  try_from = λ n xs. if leb (length xs) n then some xs else none;
  try_push = λ n xs x. if ltb (length xs) n then some (xs ++ x ∷ []) else none;
  try_from_lem = λ n xs. refl;
  try_push_lem = λ n xs x. refl;
  Origin = Origin A;
  signed = signed;
  root = root;
  unsigned = unsigned;
  ensure_signed = ensure_signed;
  ensure_root = ensure_root;
  ensure_none = ensure_none;
  ensure_signed-signed = λ a. refl;
  ensure_signed-root = refl;
  ensure_signed-unsigned = refl;
  ensure_root-root = refl;
  ensure_root-signed = λ a. refl;
  ensure_root-unsigned = refl;
  ensure_none-unsigned = refl;
  ensure_none-signed = λ a. refl;
  ensure_none-root = refl;
  storage_layer = λ m s. settle s (m s);
  storage_layer_lem = λ m s. refl;
  hash_of = hash;
}

-- accounts that are numbers, each of which is its own hash
abbrev pub frame : Frame ℕ
frame = frame_over ℕ (λ a. a ∷ [])

module _ {A : Type 0} where
  abbrev backwards : List A → List A
  backwards [] = []
  backwards (x ∷ xs) = backwards xs ++ x ∷ []

  Elem-append : (a : A) (xs ys : List A) → Elem a (xs ++ ys) ↔ (Elem a xs ⊎ Elem a ys)
  Elem-append a [] ys = ground arith
  Elem-append a (x ∷ xs) ys = ground (arith, Elem-append a xs ys)

  Elem-backwards : (a : A) (xs : List A) → Elem a (backwards xs) ↔ Elem a xs
  Elem-backwards a [] = ground arith
  Elem-backwards a (x ∷ xs) =
      ground (arith, Elem-append a (backwards xs) (x ∷ []), Elem-backwards a xs)

module _ {K V : Type 0} ⦃key : Key K⦄ where
  abbrev iter_back : List (K × V) → List (K × V)
  iter_back m = backwards (iter m)

  pub iter_back-get :
      (m : List (K × V)) (k : K) (v : V) → Elem (k, v) (iter_back m) ↔ (get m k ≡ some v)
  iter_back-get m k v = ground (arith, Elem-backwards (k, v) (iter m), iter-get m k v)

-- the same maps, gone through from the other end
abbrev pub last_first : Order frame
last_first = record { iter = iter_back; iter-get = iter_back-get }

module _ {A : Type 0} ⦃key : Key A⦄ where
  abbrev pub moved : (A → ℕ) → A → A → ℕ → A → ℕ
  moved l from to v b = ite (key.dec b from) (l b - v) (ite (key.dec b to) (l b + v) (l b))

  abbrev transfer : (A → ℕ) → A → A → ℕ → Result (A → ℕ)
  transfer l from to v =
      if eqb from to
      then ok l
      else if leb (v + 500) (l from)
      then ok (moved l from to v)
      else err (currency 0)

  module _ (l l' : A → ℕ) where
    transferred :
        (from to : A) (v : ℕ)
        → transfer l from to v ≡ ok l'
        → from ≢ to
        → (v + 500 ≤ l from) × ((b : A) → moved l from to v b ≡ l' b)
    transferred from to v h ne = ground (arith, h)

    pub transfer_from :
        (from to : A) (v : ℕ) → transfer l from to v ≡ ok l' → from ≢ to → l' from + v ≡ l from
    transfer_from from to v h ne =
        let t = transferred from to v h ne in ground (arith, t.0, t.1 from)

    pub transfer_to :
        (from to : A) (v : ℕ) → transfer l from to v ≡ ok l' → from ≢ to → l' to ≡ l to + v
    transfer_to from to v h ne = let t = transferred from to v h ne in ground (arith, t.0, t.1 to)

    pub transfer_other :
        (from to b : A) (v : ℕ) → transfer l from to v ≡ ok l' → b ≢ from → b ≢ to → l' b ≡ l b
    transfer_other from to b v h p q = ground (arith, h)

    pub transfer_self : (a : A) (v : ℕ) → transfer l a a v ≡ ok l' → l' a ≡ l a
    transfer_self a v h = ground (arith, h)

    pub transfer_keeps_alive :
        (from to : A) (v : ℕ) → transfer l from to v ≡ ok l' → from ≢ to → 0 < v → 500 ≤ l' from
    transfer_keeps_alive from to v h ne positive =
        let t = transferred from to v h ne in ground (arith, t.0, t.1 from)

abbrev pub balances_of : (A : Type 0) ⦃key : Key A⦄ → Currency A
balances_of A = record {
  Ledger = A → ℕ;
  existential_deposit = 500;
  free_balance = λ l a. l a;
  transfer = transfer;
  transfer_from = transfer_from;
  transfer_to = transfer_to;
  transfer_other = transfer_other;
  transfer_self = transfer_self;
  transfer_keeps_alive = transfer_keeps_alive;
}

abbrev pub balances : Currency ℕ
balances = balances_of ℕ
