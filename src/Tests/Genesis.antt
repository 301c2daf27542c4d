-- ===== src/Tests/Genesis.antt =====
-- The genesis of a chain whose accounts are numbers: a builder for the ledger of Tests/World.antt,
-- and the presets of runtime/src/lib.rs. Account 0 is the pot of the faucet, and 1
-- to 6 are the keyring.
use Prim.Native.String.{String}
use text.Mathlib.TextEquality.{eq_iff}
use qxchain.Prelude.{
  ℕ, ◌≤◌, ◌≡◌, refl, ◌≢◌, ◌↔◌, Bool, true, false, not, Option, none, some, List, [], ◌∷◌, ite, leb,
  map, Elem, if◌then◌else◌, ◌&&◌, arith, ℕ_discrete,
}
use qxchain.Frame.{Key, nat_key, bytes_key, ok}
use qxchain.Genesis.{GenesisPatch, GenesisBuild, Distinct, accounts, issuance, AllAtLeast}
use qxchain.Tests.World.{frame, balances, balances_of, moved, unsigned}
use qxchain.Faucet
use qxchain.Runtime
use qxchain.Runtime.{qx_faucet}
use qxchain.Runtime.Presets.{Keyrings, Name, alice, bob, charlie, dave, endowment, preset_patch}
use qxchain.Runtime.Presets.Endowment.{preset_patch-no_claim}

module _ {A : Type 0} ⦃key : Key A⦄ where
  abbrev present : A → List (A × ℕ) → Bool
  present a [] = false
  present a ((b, _) ∷ xs) = ite (key.dec a b) true (present a xs)

  abbrev sound : List (A × ℕ) → Bool
  sound [] = true
  sound ((a, v) ∷ xs) = not (present a xs) && (leb 500 v && sound xs)

  abbrev held : List (A × ℕ) → A → ℕ
  held [] a = 0
  held ((b, v) ∷ xs) a = ite (key.dec a b) v (held xs a)

  abbrev build : List (A × ℕ) → Option (A → ℕ)
  build xs = if sound xs then some (held xs) else none

  present-Elem : (a : A) (xs : List (A × ℕ)) → (present a xs ≡ true) ↔ Elem a (accounts xs)
  present-Elem a [] = ground arith
  present-Elem a ((b, v) ∷ xs) = ground (arith, present-Elem a xs)

  Elem-accounts : (a : A) (v : ℕ) (xs : List (A × ℕ)) → Elem (a, v) xs → Elem a (accounts xs)
  Elem-accounts a v [] h = h
  Elem-accounts a v ((b, w) ∷ xs) h = ground (arith, Elem-accounts a v xs)

  sound_total : (xs : List (A × ℕ)) → Distinct (accounts xs) → AllAtLeast 500 xs → sound xs ≡ true
  sound_total [] d e = refl
  sound_total ((a, v) ∷ xs) d e =
      let rest = sound_total xs d.1 e.1 in ground (arith, d.0, e.0, rest, present-Elem a xs)

  held_present :
      (xs : List (A × ℕ)) (a : A) (v : ℕ) → sound xs ≡ true → Elem (a, v) xs → held xs a ≡ v
  held_present [] a v h m = absurd m
  held_present ((b, w) ∷ xs) a v h m =
      ground (arith, h, m, held_present xs a v, present-Elem b xs, Elem-accounts a v xs)

  held_absent : (xs : List (A × ℕ)) (a : A) → ¬ Elem a (accounts xs) → held xs a ≡ 0
  held_absent [] a h = refl
  held_absent ((b, w) ∷ xs) a h = ground (arith, h, held_absent xs a)

  held_bounded : (xs : List (A × ℕ)) (a : A) → held xs a ≤ issuance xs
  held_bounded [] a = omega arith
  held_bounded ((b, w) ∷ xs) a = ground (arith, held_bounded xs a)

  pub build_of : GenesisBuild (balances_of A)
  build_of = record {
    build = build;
    build_total = λ xs d e f. (held xs, rw (sound_total xs d e) refl);
    build_present = λ xs l a v h m. ground (arith, h, held_present xs a v, m);
    build_absent = λ xs l a h m. ground (arith, h, held_absent xs a, m);
    build_bounded = λ xs l a h. ground (arith, h, held_bounded xs a);
    build_transfer =
        λ xs l from to v h ne enough alive room. (moved l from to v, ground (arith, ne, enough));
  }

abbrev patch_bytes : GenesisPatch ℕ ℕ ℕ → List ℕ
patch_bytes p = 1 ∷ []

abbrev key_of : Name → ℕ
key_of alice = 1
key_of bob = 2
key_of charlie = 3
key_of dave = 4

to_account_id-iter : (n : Name) → Elem (key_of n) (1 ∷ 2 ∷ 3 ∷ 4 ∷ 5 ∷ 6 ∷ [])
to_account_id-iter alice = ground arith
to_account_id-iter bob = ground arith
to_account_id-iter charlie = ground arith
to_account_id-iter dave = ground arith

abbrev dev : String
dev = "development"

abbrev local_testnet : String
local_testnet = "local_testnet"

presets_differ : dev ≢ local_testnet
presets_differ e = absurd (ground (arith, (eq_iff dev local_testnet).1 e))

abbrev keyrings : Keyrings ℕ
keyrings = record {
  AuraId = ℕ;
  GrandpaId = ℕ;
  sr25519_public = key_of;
  ed25519_public = key_of;
  to_account_id = key_of;
  iter = 1 ∷ 2 ∷ 3 ∷ 4 ∷ 5 ∷ 6 ∷ [];
  to_account_id-iter = to_account_id-iter;
  dev_runtime_preset = dev;
  local_testnet_runtime_preset = local_testnet;
  presets_differ = presets_differ;
  to_bytes = patch_bytes;
}

abbrev pub pot : List ℕ → ℕ
pot bytes = 0

abbrev development : GenesisPatch ℕ ℕ ℕ
development = record {
  balances = map (λ (a : ℕ). (a, endowment)) (1 ∷ 2 ∷ 3 ∷ 4 ∷ 5 ∷ 6 ∷ []);
  aura_authorities = 1 ∷ [];
  grandpa_authorities = (1, 1) ∷ [];
  sudo_key = some 1;
}

development_preset : preset_patch keyrings "development" ≡ some development
unfolding preset_patch
development_preset = refl

preset_patch-no_claim_example :
    (Runtime.dispatch frame balances pot 3 unsigned
      (qx_faucet (Faucet.Call.claim 1))
      (Runtime.genesis frame balances pot (held development.balances))).0
    ≢ ok tt
unfolding build_of ℕ_discrete
preset_patch-no_claim_example =
    preset_patch-no_claim keyrings frame balances pot build_of "development" development
      (held development.balances) 3 unsigned 1 development_preset refl (ground arith)
