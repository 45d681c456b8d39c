-- ===== src/Controller/Environment.antt =====
-- internal/controller/util.go: what the controller takes from its build and its environment. A variable
-- that is not set reads as the empty string; `atoi` is that of strconv.
use temporal_worker_controll.Base.{
  ℤ, pos, to_int32, Text, codes, ◌==◌, is_empty, Option, none, some, not, ◌&&◌, if◌then◌else◌,
}

pub record Environment : Type 0 where
  pub version : Text
  pub getenv : Text → Text
  pub atoi : Text → Option ℤ

-- `defaults.ControllerIdentity` and `defaults.MaxVersionsIneligibleForDeletion`
abbrev pub default_identity : Text
default_identity = codes "temporal-worker-controller"

abbrev pub default_max_ineligible : ℤ
default_max_ineligible = pos 75

unfoldable pub get_controller_version : Environment → Text
get_controller_version e =
    let from_env = e.getenv (codes "CONTROLLER_VERSION") in
    if not (is_empty e.version) && not (e.version == codes "unknown")
    then e.version
    else if is_empty from_env
    then codes "unknown"
    else from_env

unfoldable pub get_controller_identity : Environment → Text
get_controller_identity e =
    let identity = e.getenv (codes "CONTROLLER_IDENTITY") in
    if is_empty identity then default_identity else identity

abbrev pub int32_or : ℤ → Option ℤ → ℤ
int32_or n none = n
int32_or n (some i) = to_int32 i

-- `GetControllerMaxDeploymentVersionsIneligibleForDeletion`
unfoldable pub get_max_ineligible : Environment → ℤ
get_max_ineligible e =
    let text = e.getenv (codes "CONTROLLER_MAX_DEPLOYMENT_VERSIONS_INELIGIBLE_FOR_DELETION") in
    if is_empty text then default_max_ineligible else int32_or default_max_ineligible (e.atoi text)
