-- ===== src/Agent/SelfUpdate.antt =====
-- internal/agent/selfupdate.go, updatehost.go and selfupdate_apply_unix.go: the answer to a
-- check_update command.
mod Text
pub mod Frame
pub mod Verified
pub mod InPlace
use uncluster.Prelude.{
  String, Bool, true, false, not, ◌&&◌, ◌||◌, Option, none, some, List, [], ◌∷◌, if◌then◌else◌,
  str_eq, any, codes,
}
use uncluster.Prelude.Exec.{ok, err, attempt, pure, raise, recover, ◌>>=◌, ◌>>◌}
use uncluster.Server.Update.{UpdatePlanResponse}
use uncluster.Agent.PayloadStore.{is_quarantined, stage, activate}
use uncluster.Agent.Host.{
  Fetch, Host, HostError, update_failed, io, no_plan, disallowed_host, download_failed,
  checksum_mismatch, quarantined_version, OnHost, modify, on_store,
}
unfoldable pub use Text.*

-- What is not of this repository: net/url (Hostname of a URL that parses), the answers of status 200
-- to GET requests, the URLs that the answers redirect the HTTP client to on the way, and the
-- hexadecimal SHA-256 sum.
pub record Web : Type 0 where
  pub hostname : String → Option String
  pub body : String → Option String
  pub redirects : String → List String
  pub sum_hex : String → String

-- The fields of Config that an update reads; none is a list that agent.toml does not set.
pub record UpdateConfig : Type 0 where
  pub update_host_allowlist : Option (List String)
  pub pinned_version : String

abbrev pub default_update_host_allowlist : List String
default_update_host_allowlist = "github.com" ∷ []

unfoldable pub allowed_update_hosts : Option (List String) → List String
allowed_update_hosts none = default_update_host_allowlist
allowed_update_hosts (some hosts) = hosts

abbrev host_allowed : List String → Option String → Bool
host_allowed hosts none = false
host_allowed hosts (some host) =
    not (str_eq host "") && any (λ a. equal_fold (to_lower (codes host)) (codes a)) hosts

-- A call that has no effect on the host: a temporary file, its bytes, a directory.
abbrev pub quiet : HostError → OnHost (Unit {0})
quiet e = attempt e (λ h. (ok tt, h))

abbrev pub or_fail : {A : Type 0} → HostError → Option A → OnHost A
or_fail e none = raise e
or_fail e (some a) = pure a

abbrev pub require : HostError → Bool → OnHost (Unit {0})
require e true = pure tt
require e false = raise e

-- Temp file, write, sync, close, then the rename over the marker.
unfoldable pub write_pending_update_marker : String → OnHost (Unit {0})
write_pending_update_marker v = do
  quiet io
  quiet io
  quiet io
  quiet io
  quiet io
  attempt io (λ h. (ok tt, record h { pending = some v }))

abbrev pub asked : Fetch → Host → Host
asked f h = record h { fetched = f ∷ h.fetched }

module _ (web : Web) where
  unfoldable pub validate_update_url : String → List String → Bool
  unfolding str_eq any equal_fold to_lower
  validate_update_url url hosts = host_allowed hosts (web.hostname url)

  -- The HTTP client has no CheckRedirect, so it follows a redirect to any host.
  abbrev pub fetch_of : String → Fetch
  fetch_of url = record { url = url; followed = web.redirects url }

  -- A request of the payload, whatever becomes of it, and the body of an answer of status 200.
  unfoldable pub request : String → OnHost String
  unfolding modify
  request url = do
    modify (asked (fetch_of url))
    quiet download_failed
    or_fail download_failed (web.body url)

  -- The digest of the downloaded bytes is the first field of the checksum file, in lower case.
  unfoldable pub digest_matches : String → String → Bool
  unfolding first_field codes_eq to_lower
  digest_matches bytes raw =
      not (codes_eq (first_field (codes raw)) [])
      && codes_eq (codes (web.sum_hex bytes)) (to_lower (first_field (codes raw)))

  unfoldable pub verify_sha256 : String → String → OnHost (Unit {0})
  unfolding request digest_matches
  verify_sha256 bytes sha256_url = do
    raw ← request sha256_url
    quiet download_failed
    require checksum_mismatch (digest_matches bytes raw)

  -- The temporary file is created, written and checked; its bytes come back.
  unfoldable pub download_verified : String → String → OnHost String
  unfolding request verify_sha256 str_eq
  download_verified asset_url sha256_url = do
    quiet download_failed
    bytes ← request asset_url
    quiet download_failed
    if str_eq sha256_url "" then pure tt else verify_sha256 bytes sha256_url
    pure bytes

  unfoldable pub apply_update : String → String → String → OnHost (Unit {0})
  unfolding on_store is_quarantined stage activate download_verified write_pending_update_marker
  apply_update version asset_url sha256_url = do
    q ← on_store update_failed (is_quarantined version)
    require quarantined_version (not q)
    bytes ← download_verified asset_url sha256_url
    quiet download_failed
    on_store update_failed (stage version)
    on_store update_failed (activate version)
    write_pending_update_marker version

  -- The URLs are checked before any request is made; then the local pin is.
  unfoldable pub checked_update : UpdateConfig → String → String → String → OnHost (Unit {0})
  unfolding validate_update_url allowed_update_hosts apply_update str_eq
  checked_update cfg version asset_url sha256_url = do
    require disallowed_host
        (validate_update_url asset_url (allowed_update_hosts cfg.update_host_allowlist))
    require disallowed_host (
        str_eq sha256_url ""
        || validate_update_url sha256_url (allowed_update_hosts cfg.update_host_allowlist))
    if not (str_eq cfg.pinned_version "") && not (str_eq cfg.pinned_version version)
        then pure tt
        else apply_update version asset_url sha256_url

  -- `plan` is what GetUpdatePlan answers, `current` the version of the running payload.
  unfoldable pub handle_check_update :
      UpdateConfig → String → String → String → Option UpdatePlanResponse → OnHost (Unit {0})
  unfolding checked_update resolve_template str_eq
  handle_check_update cfg goos goarch current plan = do
    p ← or_fail no_plan plan
    if str_eq p.expected_version "" || (str_eq current p.expected_version && not p.force)
        then pure tt
        else checked_update cfg p.expected_version
            (resolve_template p.asset_url_template goos goarch p.expected_version)
            (resolve_template p.sha256_url_template goos goarch p.expected_version)
