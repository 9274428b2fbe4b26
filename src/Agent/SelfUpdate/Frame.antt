-- ===== src/Agent/SelfUpdate/Frame.antt =====
-- What the answer to a check_update command leaves alone: a condition that each of its writes keeps
-- holds behind it, whatever call is refused.
use uncluster.Prelude.{
  String, ◌≡◌, refl, Bool, true, false, not, ◌&&◌, ◌||◌, Option, none, some, str_eq,
}
use uncluster.Prelude.Exec.{pure, ◌>>=◌}
use uncluster.Prelude.Exec.Triple.{
  Triple, Triple-attempt, Triple-bind, Triple-pure, Triple-raise, Triple-if, Triple-weaken,
}
use uncluster.Server.Update.{UpdatePlanResponse}
use uncluster.Agent.PayloadStore.{is_quarantined, stage, activate}
use uncluster.Agent.Host.{
  Fetch, Host, HostError, io, update_failed, download_failed, checksum_mismatch,
  quarantined_version, disallowed_host, OnHost, on_store, Triple-modify,
}
use uncluster.Agent.SelfUpdate.{
  Web, UpdateConfig, quiet, asked, fetch_of, or_fail, require, write_pending_update_marker, request,
  validate_update_url, digest_matches, verify_sha256, download_verified, apply_update,
  allowed_update_hosts, checked_update, handle_check_update,
}

module _ {P : Host → Type 0} where
  pub quiet-keeps : (e : HostError) → Triple P (quiet e) (λ _. P) (λ _. P)
  quiet-keeps e = Triple-attempt _ _ (λ h p. p) (λ h p. p)

  pub require-shows :
      (e : HostError) (b : Bool) → Triple P (require e b) (λ _ h. (b ≡ true) × P h) (λ _. P)
  require-shows e true = Triple-pure tt (λ h p. (refl, p))
  require-shows e false = Triple-raise e (λ h p. p)

  pub or_fail-shows :
      {A : Type 0} (e : HostError) (o : Option A)
      → Triple P (or_fail e o) (λ a h. (o ≡ some a) × P h) (λ _. P)
  or_fail-shows e none = Triple-raise e (λ h p. p)
  or_fail-shows e (some a) = Triple-pure a (λ h p. (refl, p))

  drops :
      {A : Type 0} {G : A → Type 0} {m : OnHost A}
      → Triple P m (λ a h. G a × P h) (λ _. P)
      → Triple P m (λ _. P) (λ _. P)
  drops t = Triple-weaken _ _ (λ a h q. q.1) (λ e h p. p) t

  pub write_pending-keeps :
      ((v : String) (h : Host) → P h → P (record h { pending = some v }))
      → (v : String) → Triple P (write_pending_update_marker v) (λ _. P) (λ _. P)
  unfolding write_pending_update_marker
  write_pending-keeps marks v = rest (λ _.
      rest (λ _.
        rest (λ _. rest (λ _. rest (λ _. Triple-attempt _ _ (λ h p. p) (λ h p. marks v h p))))))
    where
      rest :
          {m : Unit {0} → OnHost (Unit {0})}
          → ((a : Unit {0}) → Triple P (m a) (λ _. P) (λ _. P))
          → Triple P (quiet io >>= m) (λ _. P) (λ _. P)
      rest {m} t = Triple-bind (λ _. P) (quiet io) m (quiet-keeps io) t

module _ (web : Web) {P : Host → Type 0} (asks : (f : Fetch) (h : Host) → P h → P (asked f h))
    (looks : (v : String) → Triple P (on_store update_failed (is_quarantined v)) (λ _. P) (λ _. P))
    (stages : (v : String) → Triple P (on_store update_failed (stage v)) (λ _. P) (λ _. P))
    (activates : (v : String) → Triple P (on_store update_failed (activate v)) (λ _. P) (λ _. P))
    (marks : (v : String) (h : Host) → P h → P (record h { pending = some v })) where
  request-keeps : (url : String) → Triple P (request web url) (λ _. P) (λ _. P)
  unfolding request
  request-keeps url =
      Triple-bind (λ _. P) _ _
        (Triple-modify (asked (fetch_of web url)) (λ h p. asks (fetch_of web url) h p))
        (λ _.
          Triple-bind (λ _. P) _ _ (quiet-keeps download_failed)
            (λ _. drops (or_fail-shows download_failed (web.body url))))

  verify_sha256-keeps :
      (bytes url : String) → Triple P (verify_sha256 web bytes url) (λ _. P) (λ _. P)
  unfolding verify_sha256
  verify_sha256-keeps bytes url =
      Triple-bind (λ _. P) _ _ (request-keeps url)
        (λ raw.
          Triple-bind (λ _. P) _ _ (quiet-keeps download_failed)
            (λ _. drops (require-shows checksum_mismatch (digest_matches web bytes raw))))

  download_verified-keeps :
      (asset sums : String) → Triple P (download_verified web asset sums) (λ _. P) (λ _. P)
  unfolding download_verified
  download_verified-keeps asset sums =
      Triple-bind (λ _. P) _ _ (quiet-keeps download_failed)
        (λ _.
          Triple-bind (λ _. P) _ _ (request-keeps asset)
            (λ bytes.
              Triple-bind (λ _. P) _ _ (quiet-keeps download_failed)
                (λ _.
                  Triple-bind (λ _. P) _ _
                    (Triple-if (str_eq sums "") _ _ (λ _. Triple-pure tt (λ h p. p))
                      (λ _. verify_sha256-keeps bytes sums))
                    (λ _. Triple-pure bytes (λ h p. p)))))

  apply_update-keeps :
      (v asset sums : String) → Triple P (apply_update web v asset sums) (λ _. P) (λ _. P)
  unfolding apply_update
  apply_update-keeps v asset sums =
      Triple-bind (λ _. P) _ _ (looks v)
        (λ q.
          Triple-bind (λ _. P) _ _ (drops (require-shows quarantined_version (not q)))
            (λ _.
              Triple-bind (λ _. P) _ _ (download_verified-keeps asset sums)
                (λ bytes.
                  Triple-bind (λ _. P) _ _ (quiet-keeps download_failed)
                    (λ _.
                      Triple-bind (λ _. P) _ _ (stages v)
                        (λ _.
                          Triple-bind (λ _. P) _ _ (activates v)
                            (λ _. write_pending-keeps marks v))))))

  checked_update-keeps :
      (cfg : UpdateConfig) (v asset sums : String)
      → Triple P (checked_update web cfg v asset sums) (λ _. P) (λ _. P)
  unfolding checked_update
  checked_update-keeps cfg v asset sums =
      Triple-bind (λ _. P) _ _
        (drops (
          require-shows disallowed_host
            (validate_update_url web asset (allowed_update_hosts cfg.update_host_allowlist))))
        (λ _.
          Triple-bind (λ _. P) _ _
            (drops (
              require-shows disallowed_host (
                str_eq sums ""
                || validate_update_url web sums (allowed_update_hosts cfg.update_host_allowlist))))
            (λ _.
              Triple-if (not (str_eq cfg.pinned_version "") && not (str_eq cfg.pinned_version v)) _
                _ (λ _. Triple-pure tt (λ h p. p)) (λ _. apply_update-keeps v asset sums)))

  pub handle_check_update-keeps :
      (cfg : UpdateConfig) (goos goarch current : String) (plan : UpdatePlanResponse)
      → Triple P (handle_check_update web cfg goos goarch current (some plan)) (λ _. P) (λ _. P)
  unfolding handle_check_update
  handle_check_update-keeps cfg goos goarch current p =
      Triple-if (str_eq p.expected_version "" || (str_eq current p.expected_version && not p.force))
        (pure tt) _ (λ _. Triple-pure tt (λ h p. p)) (λ _. checked_update-keeps cfg _ _ _)
