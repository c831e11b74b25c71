-- ===== src/Health/Ready.antt =====
-- What a report that says ready tells: daemon/internal/app/health_service.go.
use lara_nux.Base.{
  ℕ, Bool, true, false, List, [], ◌∷◌, ◌++◌, Option, none, some, ◌≡◌, refl, arith, All, Member,
  and-eq-true, all, inl, inr, length, if◌then◌else◌,
}
use lara_nux.Text.{Text, Unicode, text_eq}
use lara_nux.Effect.Fault.{Result, ok}
use lara_nux.Effect.Action.{Action}
use lara_nux.Effect.Yields.{Returns, Yields-bind, Keeps-Returns, Returns-pure, Yields-gets}
use lara_nux.Sites.Record.{SiteRecord, ready}
use lara_nux.Runtimes.Registry.{PhpRuntimeRecord}
use lara_nux.Resolver.Stub.{ResolverStatus}
use lara_nux.Services.Interfaces.{ServiceStatus}
use lara_nux.Health.Checks.{
  HealthCheck, SiteReadiness, SocketAvailability, HealthReport, is_active, verdict, site_checks,
  readiness_of, php_service_name,
}
use lara_nux.Health.Service.{
  HealthService, report, report_behind, report_of, site_readiness, readiness_each, status_at,
  observed, host_checks,
}

abbrev pub Passed : HealthCheck → Type 0
Passed check = check.passed ≡ true

-- A site whose checks all passed, with the status of its PHP service.
abbrev pub IsServing : SiteReadiness → Type 0
IsServing x =
    (x.site.status ≡ ready) × (All Passed x.checks × (is_active x.php_service.state ≡ true))

abbrev OfStatuses : (Text → ServiceStatus) → SiteReadiness → Type 0
OfStatuses statuses x =
    (x.is_ready ≡ true → IsServing x) × ((name : Text) × (x.php_service ≡ statuses name))

verdict-Passed :
    (checks : List HealthCheck)
    → (verdict checks).all_passed ≡ true
    → ((verdict checks).status ≡ ready) × All Passed checks
unfolding verdict
verdict-Passed [] h = (refl, tt)
verdict-Passed (check ∷ checks) h = ground (arith, verdict-Passed checks)

Member-if :
    (b : Bool) (status later : ServiceStatus) (rest : List ServiceStatus)
    → (is_active later.state ≡ true → Member later rest)
    → is_active (if b then status else later).state ≡ true
    → Member (if b then status else later) (status ∷ rest)
Member-if true status later rest ih h = inl refl
Member-if false status later rest ih h = inr (ih h)

-- A service that is active has been observed.
status_at-Member :
    (statuses : List (Text × ServiceStatus)) (name : Text)
    → is_active (status_at statuses name).state ≡ true
    → Member (status_at statuses name) (observed statuses)
unfolding status_at observed
status_at-Member [] name h = cc
status_at-Member ((key, status) ∷ statuses) name h =
    Member-if (text_eq key name) status (status_at statuses name) (observed statuses)
      (status_at-Member statuses name) h

module _ ⦃u : Unicode⦄ where
  readiness_of-OfStatuses :
      (site : SiteRecord) (path : Result (Unit {0})) (runtime : Result PhpRuntimeRecord)
      (caddy : ServiceStatus) (statuses : Text → ServiceStatus) (at : ℕ)
      → OfStatuses statuses (readiness_of site path runtime caddy statuses at)
  unfolding readiness_of site_checks
  readiness_of-OfStatuses site path runtime caddy statuses at =
      let php_service = statuses (php_service_name site runtime) in
      (
        (λ h.
            let (e, passed) = verdict-Passed (site_checks site path runtime caddy php_service) h in
            (e, (passed, passed.1.1.1.0))),
        (php_service_name site runtime, refl),
      )

-- Nothing of the world behind an action is observed here.
abbrev Gives : {σ A : Type 0} → Action σ A → (A → Type 0) → Type 0
Gives {σ} m R = Returns {σ = σ} {C = Unit {0}} (λ _. tt) tt m R

Gives-any : {σ A : Type 0} (m : Action σ A) → Gives m (λ _. Unit)
Gives-any m = Keeps-Returns m (record { at = λ w. refl })

-- What a report that says ready tells.
abbrev pub TellsReady : ℕ → HealthReport → Type 0
TellsReady euid r =
    r.is_ready ≡ true
    → (r.socket.available ≡ true)
      × ((euid ≡ 0) × All (λ x. IsServing x × Member x.php_service r.services) r.sites)

each-IsServing :
    (statuses : List (Text × ServiceStatus)) (sites : List SiteReadiness)
    → All (OfStatuses (status_at statuses)) sites
    → all (λ x. x.is_ready) sites ≡ true
    → All (λ x. IsServing x × Member x.php_service (observed statuses)) sites
unfolding all
each-IsServing statuses [] _ h = tt
each-IsServing statuses (x ∷ xs) ((serving, (name, e)), rest) h =
    let (is_up, others) = and-eq-true x.is_ready (all (λ x. x.is_ready) xs) h in
    let served = serving is_up in
    let runs : is_active (status_at statuses name).state ≡ true = rw (← e) served.1.1 in
    let found : Member x.php_service (observed statuses) =
      rw e (status_at-Member statuses name runs) in
    ((served, found), each-IsServing statuses xs rest others)

host_checks-passed :
    (socket : SocketAvailability) (euid count : ℕ) (ports : List HealthCheck)
    → all (λ check. check.passed) (host_checks socket euid count ++ ports) ≡ true
    → (socket.available ≡ true) × (euid ≡ 0)
unfolding host_checks all
host_checks-passed socket euid count ports h = ground arith

report_of-TellsReady :
    (at : ℕ) (socket : SocketAvailability) (resolver : Option (ResolverStatus × HealthCheck))
    (euid count : ℕ) (ports : List HealthCheck) (statuses : List (Text × ServiceStatus))
    (sites : List SiteReadiness)
    → All (OfStatuses (status_at statuses)) sites
    → TellsReady euid (
        report_of at socket resolver
          (host_checks socket euid count ++ ports)
          (observed statuses)
          sites)
unfolding report_of
report_of-TellsReady at socket none euid count ports statuses sites h up_all =
    let (served, passed) = and-eq-true _ _ up_all in
    let (up, root) = host_checks-passed socket euid count ports passed in
    (up, (root, each-IsServing statuses sites h served))
report_of-TellsReady at socket (some (status, check)) euid count ports statuses sites h up_all =
    let (served, passed) = and-eq-true _ _ up_all in
    let (_, passed') =
      and-eq-true check.passed
        (all (λ check. check.passed) (host_checks socket euid count ++ ports)) passed in
    let (up, root) = host_checks-passed socket euid count ports passed' in
    (up, (root, each-IsServing statuses sites h served))

module _ {σ : Type 0} (s : HealthService σ) ⦃u : Unicode⦄ where
  site-OfStatuses :
      (site : SiteRecord) (caddy : ServiceStatus) (statuses : Text → ServiceStatus) (at : ℕ)
      → Gives (site_readiness s site caddy statuses at) (OfStatuses statuses)
  unfolding site_readiness
  site-OfStatuses site caddy statuses at = Yields-gets _ _ _ (λ path.
      Yields-bind _ _ (λ _. Unit) _ (Gives-any _)
        (λ runtime _.
          Returns-pure _ _ (readiness_of-OfStatuses site path runtime caddy statuses at)))

  sites-OfStatuses :
      (sites : List SiteRecord) (caddy : ServiceStatus) (statuses : Text → ServiceStatus) (at : ℕ)
      → Gives (readiness_each s sites caddy statuses at) (All (OfStatuses statuses))
  unfolding readiness_each
  sites-OfStatuses [] caddy statuses at = Returns-pure [] _ tt
  sites-OfStatuses (site ∷ sites) caddy statuses at =
      Yields-bind _ _ _ _ (site-OfStatuses site caddy statuses at) (λ x p.
        Yields-bind _ _ _ _ (sites-OfStatuses sites caddy statuses at)
          (λ xs ps. Returns-pure (x ∷ xs) _ (p, ps)))

  behind-TellsReady :
      (at : ℕ) (socket : SocketAvailability) (resolver : Option (ResolverStatus × HealthCheck))
      (sites : List SiteRecord) (count : ℕ) (statuses : List (Text × ServiceStatus))
      → Gives
          (report_behind s at socket resolver sites count (status_at statuses) (observed statuses))
          (TellsReady s.euid)
  unfolding report_behind
  behind-TellsReady at socket resolver sites count statuses =
      Yields-bind _ _ (λ _. Unit) _ (Gives-any _)
        (λ http _.
          Yields-bind _ _ (λ _. Unit) _ (Gives-any _)
            (λ https _.
              Yields-bind _ _ _ _ (sites-OfStatuses sites _ (status_at statuses) at) (λ readiness h.
                Returns-pure _ (TellsReady s.euid) (
                  report_of-TellsReady at socket resolver s.euid count (http ∷ https ∷ []) statuses
                    readiness h))))

  report-TellsReady : (visit : List Text → List Text) → Gives (report s visit) (TellsReady s.euid)
  unfolding report
  report-TellsReady visit = Yields-gets _ _ _ (λ at. Yields-gets _ _ _ (λ socket.
      Yields-bind _ _ (λ _. Unit) _ (Gives-any _)
        (λ sites _.
          Yields-bind _ _ (λ _. Unit) _ (Gives-any _)
            (λ runtimes _.
              Yields-bind _ _ (λ _. Unit) _ (Gives-any _)
                (λ resolver _.
                  Yields-bind _ _ (λ _. Unit) _ (Gives-any _)
                    (λ statuses _.
                      behind-TellsReady at socket resolver sites (length runtimes) statuses))))))

  -- A health report that says ready has found the socket available and the daemon running as
  -- root, and every site of it has the status ready and checks that all passed, and its PHP
  -- service is active and one of the observed services.
  pub report_ready :
      (visit : List Text → List Text) (w : σ) (r : HealthReport)
      → (report s visit w).0 ≡ ok r
      → r.is_ready ≡ true
      → (r.socket.available ≡ true)
        × ((s.euid ≡ 0) × All (λ x. IsServing x × Member x.php_service r.services) r.sites)
  report_ready visit w r h up_all = ((report-TellsReady visit).at w r refl h).1 up_all
