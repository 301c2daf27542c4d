-- ===== src/Frame/Layer.antt =====
-- What a storage layer around a call preserves.
use qxchain.Prelude.{◌≡◌, refl, ap, sym, ◌∙◌}
use qxchain.Errors.{DispatchError}
use qxchain.Frame.{Frame, Exec, Result, ok, err, settle}

settle-keeps :
    {S A : Type 0} (P : S → Type 0) (s : S) (r : Result A × S) → P s → P r.1 → P (settle s r).1
settle-keeps P s (ok a, s') before after = after
settle-keeps P s (err e, s') before after = before

settle-keeps_ok :
    {S A : Type 0} (P : S → Type 0) (s : S) (r : Result A × S)
    → P s
    → ((a : A) → r.0 ≡ ok a → P r.1)
    → P (settle s r).1
settle-keeps_ok P s (ok a, s') before after = after a refl
settle-keeps_ok P s (err e, s') before after = before

settle_result : {S A : Type 0} (s : S) (r : Result A × S) → (settle s r).0 ≡ r.0
settle_result s (ok a, s') = refl
settle_result s (err e, s') = refl

settle_ok : {S A : Type 0} (s : S) (r : Result A × S) (a : A) → r.0 ≡ ok a → settle s r ≡ r
settle_ok s (ok b, s') a h = refl
settle_ok s (err e, s') a h = cc

settle_err :
    {S A : Type 0} (s : S) (r : Result A × S) (e : DispatchError) → r.0 ≡ err e → (settle s r).1 ≡ s
settle_err s (ok b, s') e h = cc
settle_err s (err x, s') e h = refl

settle_cases :
    {S A : Type 0} (P : Result A × S → Type 0) (s : S) (r : Result A × S)
    → ((e : DispatchError) → P (err e, s))
    → ((a : A) → r.0 ≡ ok a → P r)
    → P (settle s r)
settle_cases P s (ok a, s') failed done = done a refl
settle_cases P s (err e, s') failed done = failed e

module _ {AccountId : Type 0} (F : Frame AccountId) {S A : Type 0} where
  open F use {storage_layer, storage_layer_lem}

  -- What holds before the call and after its body holds after the layer.
  pub storage_layer-keeps :
      (P : S → Type 0) (m : Exec S A) (s : S) → P s → P (m s).1 → P (storage_layer m s).1
  storage_layer-keeps P m s before after =
      rw storage_layer_lem (settle-keeps P s (m s) before after)

  -- The same, where only a successful call is known to keep it.
  pub storage_layer-keeps_ok :
      (P : S → Type 0) (m : Exec S A) (s : S)
      → P s
      → ((a : A) → (m s).0 ≡ ok a → P (m s).1)
      → P (storage_layer m s).1
  storage_layer-keeps_ok P m s before after =
      rw storage_layer_lem (settle-keeps_ok P s (m s) before after)

  -- The layer changes no result.
  pub storage_layer_result : (m : Exec S A) (s : S) → (storage_layer m s).0 ≡ (m s).0
  storage_layer_result m s = rw storage_layer_lem (settle_result s (m s))

  -- A successful call is what its body is.
  pub storage_layer_ok : (m : Exec S A) (s : S) (a : A) → (m s).0 ≡ ok a → storage_layer m s ≡ m s
  storage_layer_ok m s a h = rw storage_layer_lem (settle_ok s (m s) a h)

  -- A failed call leaves the storage as it was.
  storage_layer_err :
      (m : Exec S A) (s : S) (e : DispatchError) → (m s).0 ≡ err e → (storage_layer m s).1 ≡ s
  storage_layer_err m s e h = rw storage_layer_lem (settle_err s (m s) e h)

  pub storage_layer_failed :
      (m : Exec S A) (s : S) (e : DispatchError)
      → (storage_layer m s).0 ≡ err e
      → (storage_layer m s).1 ≡ s
  storage_layer_failed m s e h = storage_layer_err m s e (rw storage_layer_result at h)

  -- To prove of a call and its result what holds of every failure that leaves the storage as it
  -- was, and of the body where it succeeds.
  pub storage_layer_cases :
      (P : Result A × S → Type 0) (m : Exec S A) (s : S)
      → ((e : DispatchError) → P (err e, s))
      → ((a : A) → (m s).0 ≡ ok a → P (m s))
      → P (storage_layer m s)
  storage_layer_cases P m s failed done = rw storage_layer_lem (settle_cases P s (m s) failed done)

  -- Two calls that do the same from a storage do the same in the layer.
  pub storage_layer-ext :
      (m k : Exec S A) (s : S) → m s ≡ k s → storage_layer m s ≡ storage_layer k s
  storage_layer-ext m k s e = storage_layer_lem m s ∙ ap (settle s) e ∙ sym (storage_layer_lem k s)
