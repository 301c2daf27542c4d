-- ===== src/Frame/Order.antt =====
-- The order in which a storage map is iterated, which a node may choose: a frame with another one.
use qxchain.Prelude.{◌≡◌, ◌↔◌, some, List, Elem}
use qxchain.Frame.{Frame, Key}

module _ {AccountId : Type 0} (F : Frame AccountId) where
  -- another way to go through all entries of a map
  pub record Order : Type 1 where
    pub iter : {K V : Type 0} ⦃key : Key K⦄ → F.Map K V → List (K × V)
    pub iter-get :
        {K V : Type 0} ⦃key : Key K⦄ (m : F.Map K V) (k : K) (v : V)
        → Elem (k, v) (iter m) ↔ (F.get m k ≡ some v)

  abbrev pub reordered : Order → Frame AccountId
  reordered O = record F { iter = O.iter; iter-get = O.iter-get }
