-- ===== src/Frame/Maps.antt =====
-- The laws of a storage map at the key that is written and at another one.
use qxchain.Prelude.{◌≡◌, refl, ◌≢◌, some, if_pos, if_neg}
use qxchain.Frame.{Frame, Key}

module _ {AccountId : Type 0} (F : Frame AccountId) {K V : Type 0} ⦃key : Key K⦄ where
  open F use {Map, get, insert, get-insert}

  pub get-insert_self : (m : Map K V) (k : K) (v : V) → get (insert m k v) k ≡ some v
  get-insert_self m k v = rw (get-insert m k v k, if_pos _ refl)

  pub get-insert_ne : (m : Map K V) (k : K) (v : V) (j : K) → k ≢ j → get (insert m k v) j ≡ get m j
  get-insert_ne m k v j ne = rw (get-insert m k v j, if_neg _ ne)
