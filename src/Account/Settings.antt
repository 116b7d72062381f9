-- ===== src/Account/Settings.antt =====
-- The settings of searcher/src/enclave/lib/ecdsa/account.py: the key backend of an account object and the flag of
-- the mnemonic features. The flag is the class's, a backend that is set is the object's own. Objects are numbered.
use sting_flashbots.Base.{
  ℕ, ◌≡◌, refl, sym, ap, ◌∙◌, Bool, true, false, Bool-cases, List, [], ◌∷◌, Option, none, some,
  Result, ok, err, attribute_error, ok-injective, >>=-eq-ok, ◌==◌, ◌>>=◌, if◌then◌else◌, inl, inr,
}
use sting_flashbots.Ecdsa.{Curve}
use sting_flashbots.Keys.{Validation}
use sting_flashbots.Keys.Objects.{BackendArgument, no_backend, set_backend}
use sting_flashbots.Account.{AccountPackage, from_mnemonic}

-- `_keys` of the class and of the objects that have their own, a KeyAPI each, and the class's flag.
pub record Settings (B : Type 0) : Type 0 where
  pub class_keys : Option B
  pub own_keys : ℕ → Option (Option B)
  pub use_unaudited_hdwallet_features : Bool

pub data SettingCall (B : Type 0) : Type 0 where
  enable_call : SettingCall B
  backend_call : ℕ → BackendArgument B → SettingCall B

-- Some call enables the mnemonic features.
unfoldable pub some_enables : {B : Type 0} → Bool → List (SettingCall B) → Bool
some_enables before [] = before
some_enables before (enable_call ∷ calls) = some_enables true calls
some_enables before (backend_call _ _ ∷ calls) = some_enables before calls

module _ {B : Type 0} (get_backend : Option (List ℕ) → Result B) where
  -- The class when the module is imported.
  unfoldable pub import_settings : Result (Settings B)
  import_settings = do
    keys ← set_backend get_backend no_backend
    ok (record {
      class_keys = keys;
      own_keys = λ account. none;
      use_unaudited_hdwallet_features = false;
    })

  unfoldable pub enable_unaudited_hdwallet_features : Settings B → Settings B
  enable_unaudited_hdwallet_features cls = record {
    class_keys = cls.class_keys;
    own_keys = cls.own_keys;
    use_unaudited_hdwallet_features = true;
  }

  unfoldable pub set_key_backend : Settings B → ℕ → BackendArgument B → Result (Settings B)
  set_key_backend self account backend = do
    keys ← set_backend get_backend backend
    ok (record {
      class_keys = self.class_keys;
      own_keys = λ other. if other == account then some keys else self.own_keys other;
      use_unaudited_hdwallet_features = self.use_unaudited_hdwallet_features;
    })

  -- `self._keys`
  unfoldable pub keys_of : Settings B → ℕ → Option B
  keys_of self account = elim (self.own_keys account) [ none ↦ self.class_keys | some keys ↦ keys ]

  unfoldable pub change : Settings B → SettingCall B → Result (Settings B)
  change self enable_call = ok (enable_unaudited_hdwallet_features self)
  change self (backend_call account backend) = set_key_backend self account backend

  unfoldable pub change_all : Settings B → List (SettingCall B) → Result (Settings B)
  change_all self [] = ok self
  change_all self (call ∷ calls) = do changed ← change self call; change_all changed calls

  -- The KeyAPI that the last call for the account makes, or the one before the calls.
  unfoldable pub last_keys : ℕ → Option B → List (SettingCall B) → Result (Option B)
  last_keys account before [] = ok before
  last_keys account before (enable_call ∷ calls) = last_keys account before calls
  last_keys account before (backend_call other backend ∷ calls) = do
    keys ← set_backend get_backend backend
    last_keys account (if account == other then keys else before) calls

  set_key_backend-keys_of :
      (self changed : Settings B) (account other : ℕ) (backend : BackendArgument B)
      → set_key_backend self other backend ≡ ok changed
      → (keys : Option B) × (set_backend get_backend backend ≡ ok keys)
        × (keys_of changed account ≡ (if account == other then keys else keys_of self account))
        × (changed.use_unaudited_hdwallet_features ≡ self.use_unaudited_hdwallet_features)
  unfolding set_key_backend keys_of
  set_key_backend-keys_of self changed account other backend h =
      let (keys, made, h1) = >>=-eq-ok (set_backend get_backend backend) _ h in
      let same = ok-injective h1 in
      (
        keys,
        made,
        ap (λ s. keys_of s account) (sym same) ∙ own keys,
        ap (λ (s : Settings B). s.use_unaudited_hdwallet_features) (sym same),
      )
    where
      own :
          (keys : Option B)
          → (elim (if account == other then some keys else self.own_keys account) [
            | none ↦ self.class_keys
            | some found ↦ found
          ])
            ≡ (if account == other then keys else keys_of self account)
      own keys = elim (Bool-cases (account == other)) [
        | inl same ↦ rw same refl
        | inr different ↦ rw different refl
      ]

  -- After a sequence of calls that raise nothing, an object's keys are those of the last call for it, whatever
  -- was set for other objects, and the flag is on where it was on or a call enabled it.
  pub change_all-keys_of :
      (calls : List (SettingCall B)) (self changed : Settings B) (account : ℕ)
      → change_all self calls ≡ ok changed
      → (last_keys account (keys_of self account) calls ≡ ok (keys_of changed account))
        × (changed.use_unaudited_hdwallet_features
            ≡ some_enables self.use_unaudited_hdwallet_features calls)
  unfolding change_all last_keys some_enables change enable_unaudited_hdwallet_features keys_of
  change_all-keys_of [] self changed account h =
      let same = ok-injective h in
      (
        ap (λ s. ok (keys_of s account)) same,
        ap (λ (s : Settings B). s.use_unaudited_hdwallet_features) (sym same),
      )
  change_all-keys_of (enable_call ∷ calls) self changed account h =
      change_all-keys_of calls (enable_unaudited_hdwallet_features self) changed account h
  change_all-keys_of (backend_call other backend ∷ calls) self changed account h =
      let (middle, first, rest) = >>=-eq-ok (set_key_backend self other backend) _ h in
      let (keys, made, keys_are, flag) =
        set_key_backend-keys_of self middle account other backend first in
      let (keys_after, flag_after) = change_all-keys_of calls middle changed account rest in
      (rw (made, sym keys_are) keys_after, flag_after ∙ ap (λ on. some_enables on calls) flag)

-- From the class as it is imported, after a sequence of calls that raise nothing, an account is made of a mnemonic
-- as with the flag on where a call enabled the features, and AttributeError is raised otherwise.
from_mnemonic-change_all :
    {B : Type 0} (get_backend : Option (List ℕ) → Result B) (c : Curve) (check : Validation)
    (e : AccountPackage) (start changed : Settings B) (calls : List (SettingCall B))
    (mnemonic passphrase path : List ℕ)
    → import_settings get_backend ≡ ok start
    → change_all get_backend start calls ≡ ok changed
    → from_mnemonic c check e changed.use_unaudited_hdwallet_features mnemonic passphrase path ≡ (
        if some_enables false calls
        then from_mnemonic c check e true mnemonic passphrase path
        else err attribute_error)
unfolding import_settings from_mnemonic
from_mnemonic-change_all get_backend c check e start changed calls mnemonic passphrase path imported
      done =
    let (_, _, h) = >>=-eq-ok (set_backend get_backend no_backend) _ imported in
    let off = ap (λ (s : Settings _). s.use_unaudited_hdwallet_features) (sym (ok-injective h)) in
    let flag =
      (change_all-keys_of get_backend calls start changed 0 done).1
      ∙ ap (λ on. some_enables on calls) off in
    rw flag (elim (Bool-cases (some_enables false calls)) [
      | inl enabled ↦ rw enabled refl
      | inr disabled ↦ rw disabled refl
    ])
