-- ===== src/Agent/SelfUpdate/Verified.antt =====
-- handleCheckUpdate: which URLs are requested, and what stands behind a change of the payload store.
use uncluster.Prelude.{
  String, ◌≡◌, refl, ◌⊎◌, inl, inr, ◌∙◌, true, false, not, ◌&&◌, ◌||◌, some, List, str_eq, any,
}
use uncluster.Prelude.Exec.{World, pure, ◌>>=◌}
use uncluster.Prelude.Exec.Triple.{
  Triple, Triple-bind, Triple-pure, Triple-if, Triple-weaken, Triple-given, Triple-from,
  Triple-fact, Outcome-either,
}
use uncluster.Server.Update.{UpdatePlanResponse}
use uncluster.Agent.PayloadStore.{Payloads, Payload, is_quarantined, stage, activate}
use uncluster.Agent.PayloadStore.Ready.{is_quarantined-keeps}
use uncluster.Agent.Host.{
  Host, OnHost, checksum_mismatch, quarantined_version, update_failed, disallowed_host,
  download_failed, on_store, Triple-modify, Triple-on_store,
}
use uncluster.Agent.SelfUpdate.Frame.{
  quiet-keeps, write_pending-keeps, require-shows, or_fail-shows,
}
use uncluster.Agent.SelfUpdate.{
  Web, UpdateConfig, allowed_update_hosts, asked, fetch_of, write_pending_update_marker,
  validate_update_url, request, digest_matches, verify_sha256, download_verified, apply_update,
  checked_update, handle_check_update, resolve_template,
}

module _ (web : Web) (hosts : List String) where
  -- Every URL that the payload has handed to the HTTP client is on an allowed host; where the
  -- client was redirected to is not bounded.
  abbrev pub IsTrusted : Host → Type 0
  IsTrusted h = any (λ f. not (validate_update_url web f.url hosts)) h.fetched ≡ false

  module _ (old : Payloads) where
    abbrev Kept : Host → Type 0
    Kept h = IsTrusted h × (h.payloads ≡ old)

    asked-Trusted :
        (url : String) (h : Host)
        → validate_update_url web url hosts ≡ true
        → Kept h
        → Kept (asked (fetch_of web url) h)
    unfolding any
    asked-Trusted url h ok_url p = (rw (ok_url, not) p.0, p.1)

    request-Kept :
        (url : String)
        → validate_update_url web url hosts ≡ true
        → Triple Kept (request web url) (λ b h. (web.body url ≡ some b) × Kept h) (λ _. Kept)
    unfolding request
    request-Kept url ok_url =
        Triple-bind (λ _. Kept) _ _
          (Triple-modify (asked (fetch_of web url)) (λ h p. asked-Trusted url h ok_url p))
          (λ _.
            Triple-bind (λ _. Kept) _ _ (quiet-keeps download_failed)
              (λ _. or_fail-shows download_failed (web.body url)))

    abbrev Sums : String → String → Type 0
    Sums sha256_url bytes =
        (str_eq sha256_url "" ≡ true)
        ⊎ ((raw : String) × (web.body sha256_url ≡ some raw)
            × (digest_matches web bytes raw ≡ true))

    verify_sha256-Kept :
        (bytes sha256_url : String)
        → validate_update_url web sha256_url hosts ≡ true
        → Triple Kept
            (verify_sha256 web bytes sha256_url)
            (λ _ h. Sums sha256_url bytes × Kept h)
            (λ _. Kept)
    unfolding verify_sha256
    verify_sha256-Kept bytes sha256_url ok_url =
        Triple-bind _ _ _ (request-Kept sha256_url ok_url) (λ raw.
          Triple-given (web.body sha256_url ≡ some raw) Kept (λ h p. p)
            (λ served.
              Triple-bind (λ _. Kept) _ _ (quiet-keeps download_failed)
                (λ _.
                  Triple-weaken _ _ (λ _ h q. (inr (raw, served, q.0), q.1)) (λ _ h q. q)
                    (require-shows checksum_mismatch (digest_matches web bytes raw)))))

    download_verified-Kept :
        (asset_url sha256_url : String)
        → validate_update_url web asset_url hosts ≡ true
        → (str_eq sha256_url "" || validate_update_url web sha256_url hosts) ≡ true
        → Triple Kept
            (download_verified web asset_url sha256_url)
            (λ bytes h. ((web.body asset_url ≡ some bytes) × Sums sha256_url bytes) × Kept h)
            (λ _. Kept)
    unfolding download_verified
    download_verified-Kept asset_url sha256_url ok_asset ok_sums =
        Triple-bind (λ _. Kept) _ _ (quiet-keeps download_failed)
          (λ _. Triple-bind _ _ _ (request-Kept asset_url ok_asset) (λ bytes.
            Triple-given (web.body asset_url ≡ some bytes) Kept (λ h p. p)
              (λ served.
                Triple-bind (λ _. Kept) _ _ (quiet-keeps download_failed)
                  (λ _.
                    Triple-bind (λ _ h. Sums sha256_url bytes × Kept h) _ _
                      (Triple-if (str_eq sha256_url "") _ _
                        (λ e. Triple-pure tt (λ h p. (inl e, p)))
                        (λ e. verify_sha256-Kept bytes sha256_url (rw (e, ◌||◌) at ok_sums)))
                      (λ _. Triple-pure bytes (λ h p. ((served, p.0), p.1)))))))

    module _ (cfg : UpdateConfig) (version asset_url sha256_url : String) where
      -- The expected version is not blocked by the pin, and its binary was served under a URL on an
      -- allowed host
      -- with the digest of the checksum file, whose URL is on an allowed host too, unless the plan
      -- names no such file.
      pub record Verified : Type 0 where
        pub unpinned :
            (not (str_eq cfg.pinned_version "") && not (str_eq cfg.pinned_version version)) ≡ false
        pub asset_allowed : validate_update_url web asset_url hosts ≡ true
        pub sums_allowed : (str_eq sha256_url "" || validate_update_url web sha256_url hosts) ≡ true
        pub bytes : String
        pub served : web.body asset_url ≡ some bytes
        pub digest : Sums sha256_url bytes

      -- Only URLs on allowed hosts were handed to the HTTP client, and the store is as it was or the update is verified.
      abbrev pub Safe : Host → Type 0
      Safe h = IsTrusted h × ((h.payloads ≡ old) ⊎ Verified)

      Kept-Safe : (h : Host) → Kept h → Safe h
      Kept-Safe h p = (p.0, inl p.1)

      asks :
          (v : String)
          → Triple Kept (on_store update_failed (is_quarantined v)) (λ _. Kept) (λ _. Kept)
      asks v = Triple-on_store update_failed (is_quarantined v) (λ h p.
          Triple-from (λ s. IsTrusted h × (s ≡ old)) (λ s e. (p.0, e ∙ p.1))
            (is_quarantined-keeps v))

      store-Trusted :
          (m : Payload (Unit {0}))
          → Triple IsTrusted (on_store update_failed m) (λ _. IsTrusted) (λ _. IsTrusted)
      store-Trusted m =
          Triple-on_store update_failed m
            (λ h p. Triple-from (λ _. IsTrusted h) (λ _ _. p) (Triple-fact m))

      until :
          {A : Type 0} {m : OnHost A} {P : Host → Type 0} {Q : A → Host → Type 0}
          → Triple P m Q (λ _. Kept)
          → Triple P m Q (λ _. Safe)
      until {Q} t = Triple-weaken Q (λ _. Kept) (λ a h q. q) (λ e h p. Kept-Safe h p) t

      installed :
          Verified
          → Triple Kept
              (on_store update_failed (stage version) >>= λ _.
                on_store update_failed (activate version) >>= λ _.
                write_pending_update_marker version)
              (λ _. Safe)
              (λ _. Safe)
      installed v =
          Triple-from IsTrusted (λ h p. p.0)
            (Triple-weaken (λ _. IsTrusted) (λ _. IsTrusted) (λ _ h p. (p, inr v))
              (λ _ h p. (p, inr v))
              (Triple-bind (λ _. IsTrusted) _ _ (store-Trusted (stage version))
                (λ _.
                  Triple-bind (λ _. IsTrusted) _ _ (store-Trusted (activate version))
                    (λ _. write_pending-keeps (λ v h p. p) version))))

      apply_update-Safe :
          (not (str_eq cfg.pinned_version "") && not (str_eq cfg.pinned_version version)) ≡ false
          → validate_update_url web asset_url hosts ≡ true
          → (str_eq sha256_url "" || validate_update_url web sha256_url hosts) ≡ true
          → Triple Kept (apply_update web version asset_url sha256_url) (λ _. Safe) (λ _. Safe)
      unfolding apply_update
      apply_update-Safe unpinned ok_asset ok_sums =
          Triple-bind (λ _. Kept) _ _ (until (asks version))
            (λ q. Triple-bind _ _ _ (until (require-shows quarantined_version (not q))) (λ _.
              Triple-bind _ _ _
                (until (
                  Triple-from Kept (λ h p. p.1)
                    (download_verified-Kept asset_url sha256_url ok_asset ok_sums)))
                (λ bytes.
                  Triple-given ((web.body asset_url ≡ some bytes) × Sums sha256_url bytes) Kept
                    (λ h p. p)
                    (λ g.
                      Triple-bind (λ _. Kept) _ _ (until (quiet-keeps download_failed))
                        (λ _. installed (record {
                          unpinned = unpinned;
                          asset_allowed = ok_asset;
                          sums_allowed = ok_sums;
                          bytes = bytes;
                          served = g.0;
                          digest = g.1;
                        }))))))

      checked_update-Safe :
          allowed_update_hosts cfg.update_host_allowlist ≡ hosts
          → Triple Kept
              (checked_update web cfg version asset_url sha256_url)
              (λ _. Safe)
              (λ _. Safe)
      unfolding checked_update
      checked_update-Safe e = rw e (
          Triple-bind _ _ _
            (until (require-shows disallowed_host (validate_update_url web asset_url hosts)))
            (λ _.
              Triple-given (validate_update_url web asset_url hosts ≡ true) Kept (λ h p. p)
                (λ ok_asset.
                  Triple-bind _ _ _
                    (until (
                      require-shows disallowed_host
                        (str_eq sha256_url "" || validate_update_url web sha256_url hosts)))
                    (λ _.
                      Triple-given
                        ((str_eq sha256_url "" || validate_update_url web sha256_url hosts) ≡ true)
                        Kept (λ h p. p)
                        (λ ok_sums.
                          Triple-if
                            (not (str_eq cfg.pinned_version "")
                              && not (str_eq cfg.pinned_version version))
                            _ _ (λ _. Triple-pure tt (λ h p. Kept-Safe h p))
                            (λ unpinned. apply_update-Safe unpinned ok_asset ok_sums))))))

module _ (web : Web) (cfg : UpdateConfig) (goos goarch current : String) where
  abbrev pub hosts_of : List String
  hosts_of = allowed_update_hosts cfg.update_host_allowlist

  -- The update of the plan is verified, and the plan asks for it.
  pub record Answered (old : Payloads) (p : UpdatePlanResponse) : Type 0 where
    pub wanted :
        (str_eq p.expected_version "" || (str_eq current p.expected_version && not p.force)) ≡ false
    pub verified :
        Verified web hosts_of old cfg p.expected_version
          (resolve_template p.asset_url_template goos goarch p.expected_version)
          (resolve_template p.sha256_url_template goos goarch p.expected_version)

  module _ (old : Payloads) (p : UpdatePlanResponse) where
    abbrev Done : Host → Type 0
    Done s = IsTrusted web hosts_of s × ((s.payloads ≡ old) ⊎ Answered old p)

    answered :
        (str_eq p.expected_version "" || (str_eq current p.expected_version && not p.force)) ≡ false
        → (s : Host)
        → Safe web hosts_of old cfg p.expected_version
            (resolve_template p.asset_url_template goos goarch p.expected_version)
            (resolve_template p.sha256_url_template goos goarch p.expected_version)
            s
        → Done s
    answered wanted s (t, inl e) = (t, inl e)
    answered wanted s (t, inr v) = (t, inr (record { wanted = wanted; verified = v }))

    handle_check_update-Triple :
        Triple
          (λ s. IsTrusted web hosts_of s × (s.payloads ≡ old))
          (handle_check_update web cfg goos goarch current (some p))
          (λ _. Done)
          (λ _. Done)
    unfolding handle_check_update
    handle_check_update-Triple =
        Triple-if
          (str_eq p.expected_version "" || (str_eq current p.expected_version && not p.force))
          (pure tt) _ (λ _. Triple-pure tt (λ s h. (h.0, inl h.1)))
          (λ wanted.
            Triple-weaken _ _ (λ _. answered wanted) (λ _. answered wanted)
              (checked_update-Safe web hosts_of old cfg p.expected_version
                (resolve_template p.asset_url_template goos goarch p.expected_version)
                (resolve_template p.sha256_url_template goos goarch p.expected_version) refl))

  -- Whatever the plan says and whatever call is refused: only URLs on allowed hosts are handed to the
  -- HTTP client, wherever it is redirected from there, and the payload store is as it was, or the
  -- plan is for a version that is not the running one or is forced, that the pin does not block, and
  -- that was downloaded under a URL on an allowed host with the digest of the checksum file, if the
  -- plan names one. No other URL had been handed over before.
  pub handle_check_update-Safe :
      (p : UpdatePlanResponse) (w : World Host)
      → IsTrusted web hosts_of w.state
      → IsTrusted web hosts_of (handle_check_update web cfg goos goarch current (some p) w).1.state
        × (((handle_check_update web cfg goos goarch current (some p) w).1.state.payloads
              ≡ w.state.payloads)
            ⊎ Answered w.state.payloads p)
  handle_check_update-Safe p w h =
      Outcome-either
        (λ s.
          IsTrusted web hosts_of s
          × ((s.payloads ≡ w.state.payloads) ⊎ Answered w.state.payloads p))
        _ _ ((handle_check_update-Triple w.state.payloads p).at w (h, refl))
