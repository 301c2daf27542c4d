-- ===== src/Runtime/Presets/Endowment.antt =====
-- What the genesis presets of runtime/src/lib.rs endow, and what the faucet can do with it.
use Prim.Native.String.{String}
use text.Mathlib.TextEquality.{eq_iff}
use qxchain.Prelude.{
  ℕ, ◌*◌, ◌≤◌, ◌<◌, ◌^◌, ◌≡◌, refl, ◌≢◌, ◌↔◌, none, some, List, [], ◌∷◌, Elem, arith, length, map,
}
use qxchain.Frame.{Frame, Key, ok}
use qxchain.Currency.{Currency}
use qxchain.Genesis.{GenesisPatch, GenesisBuild, accounts, AllAtLeast, issuance}
use qxchain.Faucet
use qxchain.Faucet.Outcomes.{claim-ok_iff}
use qxchain.Runtime.{qx_faucet, existential_deposit, faucet_config, dispatch, genesis}
use qxchain.Runtime.Presets.{Keyrings, endowment, preset_patch, get_preset, preset_names, alice}

module _ {A : Type 0} where
  abbrev endow : List A → List (A × ℕ)
  endow = map (λ (a : A). (a, endowment))

  issuance-endow : (xs : List A) → issuance (endow xs) ≡ length xs * endowment
  issuance-endow [] = omega arith
  issuance-endow (a ∷ xs) = omega (arith, issuance-endow xs)

  endow-AllAtLeast : (xs : List A) → AllAtLeast existential_deposit (endow xs)
  endow-AllAtLeast [] = tt
  endow-AllAtLeast (a ∷ xs) = (omega arith, endow-AllAtLeast xs)

  Elem-endow : (a : A) (xs : List A) → Elem a xs → Elem (a, endowment) (endow xs)
  Elem-endow a [] h = h
  Elem-endow a (x ∷ xs) h = ground (arith, Elem-endow a xs)

  accounts-endow : (xs : List A) → accounts (endow xs) ≡ xs
  accounts-endow [] = refl
  accounts-endow (x ∷ xs) = cc (accounts-endow xs)

module _ {AccountId : Type 0} (K : Keyrings AccountId) where
  open K use {
    AuraId, GrandpaId, iter, to_account_id, to_account_id-iter, presets_differ, dev_runtime_preset,
    local_testnet_runtime_preset,
  }

  -- A preset is found exactly under the names that are listed.
  get_preset-preset_names : (id : String) → (get_preset K id ≢ none) ↔ Elem id (preset_names K)
  unfolding get_preset preset_names
  get_preset-preset_names id = (
    λ h. ground (arith, h, eq_iff id dev_runtime_preset, eq_iff id local_testnet_runtime_preset),
    λ h e.
        ground (arith, h, e, eq_iff id dev_runtime_preset, eq_iff id local_testnet_runtime_preset),
  )

  -- what both presets have in common
  pub record IsPreset (p : GenesisPatch AccountId AuraId GrandpaId) : Type 0 where
    pub balances : p.balances ≡ endow iter
    pub sudo : p.sudo_key ≡ some (to_account_id alice)
    pub votes :
        map (λ (x : GrandpaId × ℕ). x.1) p.grandpa_authorities
        ≡ map (λ (x : AuraId). 1) p.aura_authorities
    pub authorities : (0 < length p.aura_authorities) × (length p.aura_authorities ≤ 32)

  preset_patch-IsPreset :
      (id : String) (p : GenesisPatch AccountId AuraId GrandpaId)
      → preset_patch K id ≡ some p
      → IsPreset p
  unfolding preset_patch
  preset_patch-IsPreset id p h = ground arith

  -- fit to start a chain from
  pub record IsStart (p : GenesisPatch AccountId AuraId GrandpaId) : Type 0 where
    pub endowed : AllAtLeast existential_deposit p.balances
    pub fits : issuance p.balances < 2 ^ 128
    pub sudo_funded : (key : AccountId) × (p.sudo_key ≡ some key) × Elem (key, endowment) p.balances
    pub votes :
        map (λ (x : GrandpaId × ℕ). x.1) p.grandpa_authorities
        ≡ map (λ (x : AuraId). 1) p.aura_authorities
    pub authorities : (0 < length p.aura_authorities) × (length p.aura_authorities ≤ 32)

  -- Either preset is a genesis to start from, if the keyring has at most 1000 keys: every balance
  -- is enough for an account to exist, all of them together fit a `u128`, the account with the sudo
  -- key has one, and there are between one and 32 authorities, each with one vote.
  preset_patch-IsStart :
      (id : String) (p : GenesisPatch AccountId AuraId GrandpaId)
      → preset_patch K id ≡ some p
      → length iter ≤ 1000
      → IsStart p
  preset_patch-IsStart id p h few =
      let q = preset_patch-IsPreset id p h in
      record {
        endowed = rw q.balances (endow-AllAtLeast iter);
        fits = rw q.balances (omega (arith, issuance-endow iter, few));
        sudo_funded = (
          to_account_id alice,
          q.sudo,
          rw q.balances (Elem-endow (to_account_id alice) iter (to_account_id-iter alice)),
        );
        votes = q.votes;
        authorities = q.authorities;
      }

  module _ ⦃account_key : Key AccountId⦄ (F : Frame AccountId) (C : Currency AccountId)
      (account_id32 : List ℕ → AccountId) (B : GenesisBuild C) where
    open F use {Origin}
    open faucet_config account_id32 use {faucet_pot, drip_amount}

    -- Neither preset endows the pot of the faucet: where the pot is no account of the keyring, no
    -- claim succeeds on the new chain, for any account at any block.
    pub preset_patch-no_claim :
        (id : String) (p : GenesisPatch AccountId AuraId GrandpaId) (l : C.Ledger) (now : ℕ)
        (o : Origin) (account : AccountId)
        → preset_patch K id ≡ some p
        → B.build p.balances ≡ some l
        → ¬ Elem faucet_pot iter
        → (dispatch F C account_id32 now o
            (qx_faucet (Faucet.Call.claim account))
            (genesis F C account_id32 l)).0
          ≢ ok tt
    unfolding dispatch genesis Faucet.genesis Faucet.can_claim
    preset_patch-no_claim id p l now o account h built absent claimed =
        let q = preset_patch-IsPreset id p h in
        let e : accounts p.balances ≡ iter = rw q.balances (accounts-endow iter) in
        let empty = B.build_absent p.balances l faucet_pot built (λ m. absent (rw (← e) m)) in
        let s = Faucet.genesis F C (faucet_config account_id32) l in
        let (_, c) = (claim-ok_iff F C (faucet_config account_id32) now o account s).0 claimed in
        absurd (ground (arith, c.allowed, empty))
