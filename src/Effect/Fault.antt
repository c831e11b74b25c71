-- ===== src/Effect/Fault.antt =====
-- The sentinel errors of daemon/internal/app and daemon/internal/host, those of `os` and `syscall`
-- that the daemon asks for, Go's wrapped errors, and results of fallible functions.
use lara_nux.Base.{ℕ, Bool, true, false, List, [], ◌∷◌, ◌++◌, ◌==◌, any, ◌≡◌, refl, ◌⊎◌, inl, inr}
use lara_nux.Text.{Text}

pub data Sentinel : Type 0 where
  invalid_laravel_path duplicate_site_name duplicate_domain site_not_found invalid_domain : Sentinel
  unsupported_runtime runtime_not_found unverifiable_php invalid_service_action : Sentinel
  resolver_conflict managed_asset_conflict activation_validation : Sentinel
  unsupported_package package_verification runtime_switch_rollback : Sentinel
  not_exist permission access_denied not_permitted : Sentinel

-- A number for each sentinel: sentinels are told apart by identity.
abbrev identity : Sentinel → ℕ
identity invalid_laravel_path = 0
identity duplicate_site_name = 1
identity duplicate_domain = 2
identity site_not_found = 3
identity invalid_domain = 4
identity unsupported_runtime = 5
identity runtime_not_found = 6
identity unverifiable_php = 7
identity invalid_service_action = 8
identity resolver_conflict = 9
identity managed_asset_conflict = 10
identity activation_validation = 11
identity unsupported_package = 12
identity package_verification = 13
identity runtime_switch_rollback = 14
identity not_exist = 15
identity permission = 16
identity access_denied = 17
identity not_permitted = 18

-- The sentinels in an error's chain, and its `Error()`.
pub record Error : Type 0 where
  pub chain : List Sentinel
  pub message : Text

-- `errors.Is`
unfoldable pub is : Sentinel → Error → Bool
unfolding any
is s e = any (λ t. identity t == identity s) e.chain

-- `fmt.Errorf("%w" + message, s)`, whose chain is the sentinel.
abbrev pub sentinel : Sentinel → Text → Error
sentinel s message = record { chain = s ∷ []; message = message }

-- `fmt.Errorf(context + "%w", e)`, which keeps the chain.
abbrev pub wrap : Text → Error → Error
wrap context e = record { chain = e.chain; message = context ++ e.message }

-- `fmt.Errorf` with no `%w`, and `errors.New`: the chain is empty.
abbrev pub plain : Text → Error
plain message = record { chain = []; message = message }

pub data Result {ℓ} (A : Type ℓ) : Type ℓ where
  ok : A → Result A
  err : Error → Result A

abbrev pub is_ok {ℓ} : {A : Type ℓ} → Result A → Bool
is_ok (ok a) = true
is_ok (err e) = false

-- The result is an error with the sentinel in its chain.
unfoldable pub rejects {ℓ} : {A : Type ℓ} → Sentinel → Result A → Bool
unfolding is
rejects s (ok a) = false
rejects s (err e) = is s e

pub ok_unit : (r : Result (Unit {0})) → is_ok r ≡ true → r ≡ ok tt
ok_unit (ok _) h = refl
ok_unit (err e) h = cc

pub Result-cases {ℓ} :
    {A : Type ℓ} (r : Result A) → ((a : A) × (r ≡ ok a)) ⊎ ((e : Error) × (r ≡ err e))
Result-cases (ok a) = inl (a, refl)
Result-cases (err e) = inr (e, refl)

-- The value, or another one.
abbrev pub value_or {ℓ} : {A : Type ℓ} → A → Result A → A
value_or a' (ok a) = a
value_or a' (err e) = a'

infixl 5 ◌>>=◌ ◌>>◌
abbrev pub ◌>>=◌ {ℓ κ} : {A : Type ℓ} {B : Type κ} → Result A → (A → Result B) → Result B
ok a >>= f = f a
err e >>= f = err e

abbrev pub ◌>>◌ {ℓ κ} : {A : Type ℓ} {B : Type κ} → Result A → Result B → Result B
m >> k = m >>= λ _. k

-- `if !test { return err }`
abbrev pub require : Bool → Error → Result (Unit {0})
require true e = ok tt
require false e = err e
