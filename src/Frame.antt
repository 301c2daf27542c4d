-- ===== src/Frame.antt =====
-- What the pallets use of FRAME (the polkadot-sdk crates, which the repository depends on and
-- does not hold): an interface of operations with the laws that their documentation states, taken
-- as a parameter by every definition that uses it. The state of a call and its `?` operator are
-- the monad of the child module `Call`.
mod Call
pub mod Layer
pub mod Maps
pub mod Order
pub mod Dispatch
mod Keys
pub use Call.*
pub use Keys.{Key, update, nat_key, bytes_key, eqb}
unfoldable pub use Keys.{bytes_discrete}
use qxchain.Prelude.{
  ℕ, ◌≡◌, ◌↔◌, Bool, true, false, Option, none, some, List, [], ◌∷◌, ◌++◌, ite, ltb, leb, length,
  Elem, if◌then◌else◌,
}

-- `AccountId` is `frame_system::Config::AccountId`.
pub record Frame (AccountId : Type 0) : Type 1 where
  -- `StorageMap`: a finite map, and the order of `iter` is left open
  pub Map : Type 0 → Type 0 → Type 0
  pub empty : {K V : Type 0} → Map K V
  pub get : {K V : Type 0} ⦃key : Key K⦄ → Map K V → K → Option V
  pub insert : {K V : Type 0} ⦃key : Key K⦄ → Map K V → K → V → Map K V
  pub remove : {K V : Type 0} ⦃key : Key K⦄ → Map K V → K → Map K V
  pub iter : {K V : Type 0} ⦃key : Key K⦄ → Map K V → List (K × V)
  pub get-empty : {K V : Type 0} ⦃key : Key K⦄ (j : K) → get (empty {K = K} {V = V}) j ≡ none
  pub get-insert :
      {K V : Type 0} ⦃key : Key K⦄ (m : Map K V) (k : K) (v : V) (j : K)
      → get (insert m k v) j ≡ ite (key.dec k j) (some v) (get m j)
  pub get-remove :
      {K V : Type 0} ⦃key : Key K⦄ (m : Map K V) (k j : K)
      → get (remove m k) j ≡ ite (key.dec k j) none (get m j)
  pub iter-get :
      {K V : Type 0} ⦃key : Key K⦄ (m : Map K V) (k : K) (v : V)
      → Elem (k, v) (iter m) ↔ (get m k ≡ some v)
  -- `BoundedVec::try_from` and `BoundedVec::try_push` at a bound
  pub try_from : {A : Type 0} → ℕ → List A → Option (List A)
  pub try_push : {A : Type 0} → ℕ → List A → A → Option (List A)
  pub try_from_lem :
      {A : Type 0} (n : ℕ) (xs : List A)
      → try_from n xs ≡ (if leb (length xs) n then some xs else none)
  pub try_push_lem :
      {A : Type 0} (n : ℕ) (xs : List A) (x : A)
      → try_push n xs x ≡ (if ltb (length xs) n then some (xs ++ x ∷ []) else none)
  -- the origin of a call, and the tests on it: a failure is `BadOrigin`
  pub Origin : Type 0
  pub signed : AccountId → Origin
  pub root : Origin
  pub unsigned : Origin
  pub ensure_signed : Origin → Option AccountId
  pub ensure_root : Origin → Bool
  pub ensure_none : Origin → Bool
  pub ensure_signed-signed : (a : AccountId) → ensure_signed (signed a) ≡ some a
  pub ensure_signed-root : ensure_signed root ≡ none
  pub ensure_signed-unsigned : ensure_signed unsigned ≡ none
  pub ensure_root-root : ensure_root root ≡ true
  pub ensure_root-signed : (a : AccountId) → ensure_root (signed a) ≡ false
  pub ensure_root-unsigned : ensure_root unsigned ≡ false
  pub ensure_none-unsigned : ensure_none unsigned ≡ true
  pub ensure_none-signed : (a : AccountId) → ensure_none (signed a) ≡ false
  pub ensure_none-root : ensure_none root ≡ false
  -- `with_storage_layer`, which the macro of `#[pallet::call]` puts around the body of every call
  pub storage_layer : {S A : Type 0} → Exec S A → Exec S A
  pub storage_layer_lem : {S A : Type 0} (m : Exec S A) (s : S) → storage_layer m s ≡ settle s (m s)
  -- `T::Hashing::hash_of`, as the bytes of the hash
  pub hash_of : AccountId → List ℕ
