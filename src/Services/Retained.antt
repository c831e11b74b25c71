-- ===== src/Services/Retained.antt =====
-- An update of a stored site that keeps its id, its name and its domain, as a switch and an
-- activation make it: daemon/internal/app over daemon/internal/app/site_registry.go.
use lara_nux.Base.{List, Option, some, ◌≡◌, find}
use lara_nux.Text.{Unicode}
use lara_nux.World.{Os, StateFile, StateLaws}
use lara_nux.Effect.Yields.{Yields}
use lara_nux.Sites.Record.{SiteRecord, SiteRegistryState}
use lara_nux.Sites.Registry
use lara_nux.Sites.Registry.{with_id}
use lara_nux.Sites.Registry.Unique.{IsUnique}
use lara_nux.Sites.Registry.Methods.{update_replaces}
use lara_nux.Services.Management.Others.{IsKeyed, replace_first-IsUnique}
use lara_nux.Services.Management.Keyed.{replace_first-IsKeyed, found-spares}

-- Sites are stored, no two of which share an id, a name or a domain.
abbrev pub StoresUnique : ⦃u : Unicode⦄ → Option SiteRegistryState → Type 0
StoresUnique c =
    (sites : List SiteRecord) × (c ≡ some (record { sites = sites }))
    × IsKeyed sites
    × IsUnique sites

pub retained :
    {σ : Type 0} (os : Os σ) (file : StateFile σ SiteRegistryState) (laws : StateLaws os file)
    ⦃u : Unicode⦄ (current new : SiteRecord) (stored : List SiteRecord)
    → find (with_id current.id) stored ≡ some current
    → new.id ≡ current.id
    → new.name ≡ current.name
    → new.domain ≡ current.domain
    → IsKeyed stored
    → IsUnique stored
    → Yields laws.content
        (some (record { sites = stored }))
        (Registry.update os file new)
        (λ _ c. StoresUnique c)
retained os file laws current new stored found i n d keyed unique = record {
  at = λ w site e h.
      let (sites', behind, replaced, identified, named, hosted) =
        update_replaces os file laws new w stored site e h in
      (
        sites',
        behind,
        replace_first-IsKeyed new.id site stored sites' replaced identified keyed,
        replace_first-IsUnique new.id site stored sites' replaced keyed
            (rw (named, hosted, n, d, i) (found-spares current.id current stored found unique))
            unique,
      );
}
