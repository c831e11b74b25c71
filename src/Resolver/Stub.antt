-- ===== src/Resolver/Stub.antt =====
-- The resolver's drop-in: `normalizeSpec`, `renderStub`, `ownsDomain` and `isManagedContent` of
-- daemon/internal/host/ubuntu/resolved/manager.go, and the status types of
-- daemon/internal/host/manager.go.
use lara_nux.Base.{
  Bool, true, false, ◌||◌, ◌&&◌, not, List, ◌++◌, Option, none, some, any, is_empty, if◌then◌else◌,
  ◌≡◌,
}
use lara_nux.Text.{
  Text, Unicode, codes, trim_space, trim_prefix, to_lower, has_prefix, contains, contains-prefix,
  split, cut, fields, equal_fold,
}

pub record Conflict : Type 0 where
  pub resource : Text
  pub owner : Text
  pub summary : Text
  pub remediation : Text

pub record ResolverStubSpec : Type 0 where
  pub domain : Text
  pub address : Text

pub record ResolverStatus : Type 0 where
  pub managed : Bool
  pub stub_path : Text
  pub domain : Text
  pub address : Text
  pub owner : Text
  pub conflicts : List Conflict
  pub summary : Text
  pub remediation : Text

abbrev pub stub_marker : Text
stub_marker = codes "# Managed by Lara Nux"

abbrev or_default : Text → Text → Text
or_default fallback s = if is_empty s then fallback else s

module _ ⦃u : Unicode⦄ where
  unfoldable pub normalize_spec : ResolverStubSpec → ResolverStubSpec
  unfolding to_lower trim_space trim_prefix
  normalize_spec spec = record {
    domain =
        or_default (codes "test") (trim_prefix (codes ".") (to_lower (trim_space spec.domain)));
    address = or_default (codes "127.0.0.1") (trim_space spec.address);
  }

  -- The line `Domains=` with one of its values the domain.
  claims_domain : Text → Option (Text × Text) → Bool
  unfolding equal_fold trim_space fields
  claims_domain needle none = false
  claims_domain needle (some (key, value)) =
      equal_fold (trim_space key) (codes "Domains")
      && any (λ token. equal_fold (trim_space token) needle) (fields value)

  abbrev is_comment : Text → Bool
  is_comment line = is_empty line || (has_prefix (codes "#") line || has_prefix (codes ";") line)

  line_claims : Text → Text → Bool
  unfolding claims_domain has_prefix cut trim_space
  line_claims needle line =
      let trimmed = trim_space line in
      not (is_comment trimmed) && claims_domain needle (cut 61 trimmed)

  unfoldable pub owns_domain : Text → Text → Bool
  unfolding line_claims split to_lower trim_space trim_prefix any
  owns_domain payload domain =
      let needle = codes "~" ++ trim_prefix (codes ".") (to_lower (trim_space domain)) in
      any (line_claims needle) (split 10 payload)

unfoldable pub render_stub : ResolverStubSpec → Text
render_stub spec =
    stub_marker
    ++ (codes "\n[Resolve]\nDNS="
        ++ (spec.address ++ (codes "\nDomains=~" ++ (spec.domain ++ codes "\n"))))

unfoldable pub is_managed_content : Text → Bool
unfolding contains
is_managed_content payload = contains stub_marker payload

-- What the daemon writes is taken for its own later.
pub render_stub-managed : (spec : ResolverStubSpec) → is_managed_content (render_stub spec) ≡ true
unfolding is_managed_content render_stub
render_stub-managed spec = contains-prefix stub_marker (
    codes "\n[Resolve]\nDNS="
    ++ (spec.address ++ (codes "\nDomains=~" ++ (spec.domain ++ codes "\n"))))
