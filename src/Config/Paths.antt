-- ===== src/Config/Paths.antt =====
-- config.rs: integrations that pass `validate_integration_paths` are at different paths.
use simple_alert_proxy.Prelude.{
  String, none, [], ◌∷◌, ◌≡◌, ◌≢◌, arith, All, All-mono, Option-cases, inl, inr, str_eq_iff,
}
use simple_alert_proxy.Prelude.Maps.{Entries, get}
use simple_alert_proxy.Config.{IntegrationConfig, path_of}
use simple_alert_proxy.Config.Checks.{ok}
use simple_alert_proxy.Config.Integrations.{check_paths, validate_integration_paths}

-- The paths of the integrations differ pairwise.
unfoldable pub PathsDiffer : Entries IntegrationConfig → Type 0
PathsDiffer [] = Unit
PathsDiffer ((name, i) ∷ rest) = All (λ e. path_of i ≢ path_of e.1) rest × PathsDiffer rest

abbrev pub IsFree : Entries String → String × IntegrationConfig → Type 0
IsFree paths e = get (path_of e.1) paths ≡ none

IsFree-tail :
    (paths : Entries String) (path name : String) (e : String × IntegrationConfig)
    → IsFree ((path, name) ∷ paths) e
    → (path ≢ path_of e.1) × IsFree paths e
unfolding get
IsFree-tail paths path name e h = ground (arith, str_eq_iff path (path_of e.1))

check_paths-ok :
    (paths : Entries String) (integrations : Entries IntegrationConfig)
    → check_paths paths integrations ≡ ok
    → All (IsFree paths) integrations × PathsDiffer integrations
unfolding check_paths PathsDiffer
check_paths-ok paths [] h = (tt, tt)
check_paths-ok paths ((name, i) ∷ rest) h = elim (Option-cases (get (path_of i) paths)) [
  | inl e ↦
      let (frees, differ) = check_paths-ok ((path_of i, name) ∷ paths) rest (ground arith) in
      (
        (
          e,
          All-mono (IsFree ((path_of i, name) ∷ paths)) (IsFree paths)
              (λ x h. (IsFree-tail paths (path_of i) name x h).1) rest frees,
        ),
        (
          All-mono (IsFree ((path_of i, name) ∷ paths)) (λ x. path_of i ≢ path_of x.1)
              (λ x h. (IsFree-tail paths (path_of i) name x h).0) rest frees,
          differ,
        ),
      )
  | inr (previous, e) ↦ ground arith
]

pub validate_integration_paths-ok :
    (integrations : Entries IntegrationConfig)
    → validate_integration_paths integrations ≡ ok
    → PathsDiffer integrations
unfolding validate_integration_paths
validate_integration_paths-ok integrations h = (check_paths-ok [] integrations h).1
