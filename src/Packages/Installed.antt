-- ===== src/Packages/Installed.antt =====
-- When Verify and Acquire succeed, and what the inventory holds:
-- daemon/internal/host/ubuntu/packages/manager.go.
use lara_nux.Base.{
  Bool, true, false, ◌&&◌, not, List, [], ◌∷◌, ◌++◌, Option, ◌≡◌, refl, arith, append-nil,
  append_assoc, is_some, inl, inr, All, find-All, find, Option-cases, none, some,
}
use lara_nux.Text.{Text, Unicode, codes, text_eq, to_lower, trim_space, has_prefix}
use lara_nux.Effect.Fault.{Error, ok, is_ok}
use lara_nux.Effect.Action.{◌>>=◌}
use lara_nux.Machine.Calls.{Machine, Environment, run, run_command, made}
use lara_nux.Packages.Catalog.{
  SupportedPackage, PackageRequest, PackageVerification, supported_catalog, find_supported,
}
use lara_nux.Packages.Manager.{
  inspected, inspect_package, inspect_each, verification_result, verify, acquire,
}

abbrev pub apt_get : List Text → List Text
apt_get packages =
    codes "apt-get" ∷ codes "install" ∷ codes "-y" ∷ codes "--no-install-recommends" ∷ packages

abbrev pub dpkg_query : Text → List Text
dpkg_query name = codes "dpkg-query" ∷ codes "-W" ∷ codes "-f=${Status}|${Version}" ∷ name ∷ []

module _ (env : Environment) where
  abbrev answer_to : List Text → Machine → Text × Option Error
  answer_to command m = env.answer m.files m.trace command

  -- The machine behind the queries of packages.
  unfoldable pub asked : List Text → Machine → Machine
  asked [] m = m
  asked (name ∷ names) m = asked names (made (run (dpkg_query name)) m)

  -- The answer of dpkg-query: no error, and a status that says installed.
  unfoldable pub is_installed : Text × Option Error → Bool
  unfolding trim_space has_prefix
  is_installed (output, error) =
      not (is_some error) && has_prefix (codes "install ok installed|") (trim_space output)

  -- Each package is answered as installed, one after the other.
  unfoldable pub all_installed : List Text → Machine → Bool
  all_installed [] m = true
  all_installed (name ∷ names) m =
      is_installed (answer_to (dpkg_query name) m)
      && all_installed names (made (run (dpkg_query name)) m)

  inspected-is_installed :
      (answer : Text × Option Error) → (inspected answer).1 ≡ not (is_installed answer)
  unfolding inspected is_installed
  inspected-is_installed (output, error) = ground arith

  statuses_on : List Text → Machine → List (Text × Text)
  unfolding inspected
  statuses_on [] m = []
  statuses_on (name ∷ names) m =
      (name, (inspected (answer_to (dpkg_query name) m)).0)
      ∷ statuses_on names (made (run (dpkg_query name)) m)

  and_assoc : (a b c : Bool) → ((a && b) && c) ≡ (a && (b && c))
  and_assoc true b c = refl
  and_assoc false b c = refl

  inspect_each_lem :
      (names : List Text) (v : PackageVerification) (m : Machine)
      → inspect_each env names v m ≡ (
        ok (record v {
          verified = v.verified && all_installed names m;
          details = v.details ++ statuses_on names m;
        }),
        asked names m,
      )
  unfolding inspect_each inspect_package ◌>>=◌ run_command all_installed statuses_on asked
  inspect_each_lem [] v m = ground (arith, append-nil v.details)
  inspect_each_lem (name ∷ names) v m =
      let found = inspected (answer_to (dpkg_query name) m) in
      let here : PackageVerification = record v {
        verified = v.verified && not found.1;
        details = v.details ++ ((name, found.0) ∷ []);
      } in
      let m' : Machine = made (run (dpkg_query name)) m in
      ground (
        arith,
        inspected-is_installed (answer_to (dpkg_query name) m),
        inspect_each_lem names here m',
        and_assoc v.verified (not found.1) (all_installed names m'),
        append_assoc v.details ((name, found.0) ∷ []) (statuses_on names m'),
      )

  module _ ⦃u : Unicode⦄ where
    -- apt-get takes the bundle, and its packages are installed behind it.
    abbrev pub is_acquired : Option SupportedPackage → Machine → Bool
    is_acquired (some supported) m =
        not (is_some (answer_to (apt_get supported.packages) m).1)
        && all_installed supported.packages (made (run (apt_get supported.packages)) m)
    is_acquired none m = false

    canonical : All (λ p. find_supported p.key ≡ ok p) supported_catalog
    unfolding find_supported
    canonical = (refl, (refl, (refl, (refl, (refl, tt)))))

    -- The key of a bundle that was found finds it again.
    found_again :
        (key : Text) (p : SupportedPackage)
        → find_supported key ≡ ok p
        → find_supported p.key ≡ ok p
    unfolding find_supported
    found_again key p h =
        find-All (λ p. find_supported p.key ≡ ok p) (λ p. text_eq p.key (to_lower (trim_space key)))
          supported_catalog canonical (ground (arith, h))

    -- Acquire succeeds exactly if the key names a supported bundle, apt-get installs its
    -- packages without an error, and dpkg-query then answers for each of them, without an error,
    -- with a status that begins with install ok installed.
    pub acquire_succeeds :
        (request : PackageRequest) (m : Machine)
        → is_ok (acquire env request m).0
          ≡ is_acquired
              (find (λ p. text_eq p.key (to_lower (trim_space request.key))) supported_catalog)
              m
    unfolding find_supported acquire ◌>>=◌ verify verification_result run_command
    acquire_succeeds request m =
        elim (Option-cases
          (find (λ p. text_eq p.key (to_lower (trim_space request.key))) supported_catalog)) [
            | inl e ↦ ground (arith, e)
            | inr (supported, e) ↦
                let start : PackageVerification = record {
                  key = supported.key;
                  verified = true;
                  details = [];
                } in
                let m' : Machine = made (run (apt_get supported.packages)) m in
                ground (
                  arith,
                  e,
                  found_again request.key supported (ground (arith, e)),
                  inspect_each_lem supported.packages start m',
                )
          ]
