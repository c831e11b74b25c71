-- ===== src/Sites/Registry/Atomic.antt =====
-- A method of the registry that fails leaves the stored sites as they were; `List` and `Get` leave
-- them so always.
use lara_nux.Base.{ℕ, false, ◌≡◌}
use lara_nux.Text.{Text, Unicode}
use lara_nux.Effect.Fault.{is_ok}
use lara_nux.Effect.Atomic.{Keeps, Atomic, atomic_rules}
use lara_nux.World.{Os, StateFile, StateLaws}
use lara_nux.Sites.Record.{SiteRecord, SiteStatus, SiteRegistrationInput, SiteRegistryState}
use lara_nux.Sites.Registry.{
  register, list, get, update, delete, set_status, Change, register_site, update_site, delete_site,
  set_site_status, apply,
}

module _ {σ : Type 0} (os : Os σ) (file : StateFile σ SiteRegistryState) (laws : StateLaws os file)
    ⦃u : Unicode⦄ where
  open laws use {content, content-load, content-save_failed, content-entropy}

  load-Keeps : Keeps content file.load
  load-Keeps = record { at = content-load }

  save-Atomic : (s : SiteRegistryState) → Atomic content (file.save s)
  save-Atomic s = record { at = content-save_failed s }

  entropy-Keeps : Keeps content os.entropy
  entropy-Keeps = record { at = content-entropy }

  ruleset registry_rules = (atomic_rules, load-Keeps, save-Atomic, entropy-Keeps)

  pub register-Atomic : (input : SiteRegistrationInput) → Atomic content (register os file input)
  unfolding register
  register-Atomic input = search registry_rules depth 30

  pub list-Keeps : Keeps content (list os file)
  unfolding list
  list-Keeps = search registry_rules depth 30

  pub get-Keeps : (id : Text) → Keeps content (get os file id)
  unfolding get
  get-Keeps id = search registry_rules depth 30

  pub update-Atomic : (site : SiteRecord) → Atomic content (update os file site)
  unfolding update
  update-Atomic site = search registry_rules depth 30

  pub delete-Atomic : (id : Text) → Atomic content (delete os file id)
  unfolding delete
  delete-Atomic id = search registry_rules depth 30

  pub set_status-Atomic :
      (id : Text) (status : SiteStatus) (message : Text) (checked_at : ℕ)
      → Atomic content (set_status os file id status message checked_at)
  unfolding set_status
  set_status-Atomic id status message checked_at =
      search (registry_rules, get-Keeps, update-Atomic) depth 30

  apply-Atomic : (change : Change) → Atomic content (apply os file change)
  unfolding apply
  apply-Atomic (register_site input) = search (registry_rules, register-Atomic) depth 30
  apply-Atomic (update_site site) = search (registry_rules, update-Atomic) depth 30
  apply-Atomic (delete_site id) = delete-Atomic id
  apply-Atomic (set_site_status id status message checked_at) =
      search (registry_rules, set_status-Atomic) depth 30

  -- Whatever makes Register, Update, Delete or SetStatus fail, the stored sites are what they
  -- were.
  pub registry_failure :
      (change : Change) (w : σ)
      → is_ok (apply os file change w).0 ≡ false
      → content (apply os file change w).1 ≡ content w
  registry_failure change w h = (apply-Atomic change).at w h
