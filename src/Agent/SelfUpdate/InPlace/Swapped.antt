-- ===== src/Agent/SelfUpdate/InPlace/Swapped.antt =====
-- What an update in place leaves of the binaries.
use uncluster.Prelude.{
  String, ◌≡◌, refl, sym, ◌⊎◌, inl, inr, true, Option, none, some, [], str_eq, not, ◌&&◌,
}
use uncluster.Prelude.Exec.{ok, World, attempt}
use uncluster.Prelude.Exec.Triple.{
  Triple, Outcome, Outcome-ok, Triple-attempt, Triple-bind, Triple-pure, Triple-raise, Triple-if,
  Triple-recover, Triple-weaken, Triple-given,
}
use uncluster.Agent.SelfUpdate.{Web, digest_matches}
use uncluster.Agent.SelfUpdate.InPlace.{
  Binaries, SwapError, refused, pinned, download_failed, checksum_mismatch, Swap, act, needs,
  download, drop_fresh, or_drop, verify, set_aside, install, put_back, undo, swap_binary,
  apply_in_place, rollback_in_place,
}

module _ (b : String) where
  -- The binary is in its place.
  abbrev InPlace : Binaries → Type 0
  InPlace s = s.binary ≡ some b

  -- The binary is in its place, or none is and it is the previous one.
  abbrev pub IsSafe : Binaries → Type 0
  IsSafe s = (s.binary ≡ some b) ⊎ ((s.binary ≡ none) × (s.prev ≡ some b))

  -- The new bytes are downloaded.
  abbrev Fetched : String → Binaries → Type 0
  Fetched bytes s = (s.binary ≡ some b) × (s.fresh ≡ some bytes)

  abbrev Aside : String → Binaries → Type 0
  Aside bytes s = (s.binary ≡ none) × (s.prev ≡ some b) × (s.fresh ≡ some bytes)

  -- The new binary is in place, and the old one is the previous one.
  abbrev pub Swapped : String → Binaries → Type 0
  Swapped bytes s = (s.binary ≡ some bytes) × (s.prev ≡ some b)

  drops :
      (P : Binaries → Type 0) (m : Swap (Unit {0})) {Q : Unit {0} → Binaries → Type 0}
      → Triple P m Q (λ _. InPlace)
      → Triple P (or_drop m) Q (λ _. InPlace)
  drops P m t =
      Triple-recover (λ _. InPlace) _ m t
        (λ e.
          Triple-bind (λ _. InPlace) drop_fresh _
            (Triple-recover (λ _. InPlace) _ (act (λ s. record s { fresh = none }))
              (Triple-attempt refused _ (λ s p. p) (λ s p. p)) (λ _. Triple-pure tt (λ s p. p)))
            (λ _. Triple-raise e (λ s p. p)))

  set_aside-Aside : (bytes : String) (s : Binaries) → Fetched bytes s → Aside bytes (set_aside s)
  set_aside-Aside bytes s p = rw (p.0, set_aside) (refl, refl, p.1)

  installed :
      (bytes : String) (s : Binaries)
      → Aside bytes s
      → Outcome (λ _. Swapped bytes) (λ _. Aside bytes) (install s).0 (install s).1
  installed bytes s p = rw (p.2, install) (refl, p.1)

  undone :
      (bytes : String) (s : Binaries)
      → Aside bytes s
      → Outcome (λ _. IsSafe) (λ _. IsSafe) (put_back s).0 (put_back s).1
  undone bytes s p = rw (p.1, put_back) (inl refl)

  swap_binary-Swapped :
      (bytes : String) → Triple (Fetched bytes) swap_binary (λ _. Swapped bytes) (λ _. IsSafe)
  unfolding swap_binary
  swap_binary-Swapped bytes =
      Triple-bind (λ _. Fetched bytes) _ _
        (early (drops (Fetched bytes) _ (Triple-attempt refused _ (λ s p. p.0) (λ s p. p))))
        (λ _.
          Triple-bind (λ _. Aside bytes) _ _
            (early (
              drops (Fetched bytes) _
                (Triple-attempt refused _ (λ s p. p.0) (λ s p. set_aside-Aside bytes s p))))
            (λ _.
              Triple-recover (λ _. Aside bytes) _ _
                (Triple-attempt refused install (λ s p. p) (λ s p. installed bytes s p))
                (λ e.
                  Triple-bind (λ _. IsSafe) undo _
                    (Triple-recover (λ _. IsSafe) _ (attempt refused put_back)
                      (Triple-attempt refused put_back (λ s p. inr (p.0, p.1))
                        (λ s p. undone bytes s p))
                      (λ _. Triple-pure tt (λ s p. p)))
                    (λ _. Triple-raise e (λ s p. p)))))
    where
      early :
          {P : Binaries → Type 0} {m : Swap (Unit {0})} {Q : Unit {0} → Binaries → Type 0}
          → Triple P m Q (λ _. InPlace)
          → Triple P m Q (λ _. IsSafe)
      early {Q} t = Triple-weaken Q (λ _. InPlace) (λ _ s q. q) (λ _ s p. inl p) t

  module _ (web : Web) where
    needs-shows :
        {P : Binaries → Type 0} (e : SwapError) (o : Option String)
        → Triple P (needs e o) (λ a s. (o ≡ some a) × P s) (λ _. P)
    needs-shows e none = Triple-raise e (λ s p. p)
    needs-shows e (some a) = Triple-pure a (λ s p. (refl, p))

    download-Fetched :
        (url : String)
        → Triple InPlace
            (download web url)
            (λ bytes s. (web.body url ≡ some bytes) × Fetched bytes s)
            (λ _. InPlace)
    unfolding download
    download-Fetched url =
        Triple-bind (λ _. InPlace) _ _ (Triple-attempt refused _ (λ s p. p) (λ s p. p))
          (λ _. Triple-bind _ _ _ (needs-shows download_failed (web.body url)) (λ bytes.
            Triple-given (web.body url ≡ some bytes) InPlace (λ s p. p)
              (λ served.
                Triple-bind (λ _. InPlace) _ _ (Triple-attempt refused _ (λ s p. p) (λ s p. p))
                  (λ _.
                    Triple-bind (λ _. Fetched bytes) _ _
                      (Triple-attempt refused _ (λ s p. p) (λ s p. (p, refl)))
                      (λ _. Triple-pure bytes (λ s p. (served, p)))))))

    abbrev pub Sums : String → String → Type 0
    Sums sha256_url bytes =
        (str_eq sha256_url "" ≡ true)
        ⊎ ((raw : String) × (web.body sha256_url ≡ some raw)
            × (digest_matches web bytes raw ≡ true))

    verify-Sums :
        (bytes url : String)
        → Triple
            (Fetched bytes)
            (verify web bytes url)
            (λ _ s. Sums url bytes × Fetched bytes s)
            (λ _. InPlace)
    unfolding verify
    verify-Sums bytes url =
        Triple-bind (λ _. Fetched bytes) _ _ (Triple-attempt refused _ (λ s p. p.0) (λ s p. p))
          (λ _.
            Triple-bind (λ raw s. (web.body url ≡ some raw) × Fetched bytes s) _ _
              (Triple-weaken _ (λ _. Fetched bytes) (λ _ s p. p) (λ _ s p. p.0)
                (needs-shows download_failed (web.body url)))
              (λ raw.
                Triple-given (web.body url ≡ some raw) (Fetched bytes) (λ s p. p)
                  (λ served.
                    Triple-bind (λ _. Fetched bytes) _ _
                      (Triple-attempt refused _ (λ s p. p.0) (λ s p. p))
                      (λ _.
                        Triple-if (digest_matches web bytes raw) _ _
                          (λ same. Triple-pure tt (λ s p. (inr (raw, served, same), p)))
                          (λ _. Triple-raise checksum_mismatch (λ s p. p.0))))))

    -- The new bytes are those that the URL served, with the digest of the checksum file, if there
    -- is one; they are the binary, and the old binary is the previous one.
    abbrev pub Updated : String → String → Binaries → Type 0
    Updated asset_url sha256_url s =
        (bytes : String) × (web.body asset_url ≡ some bytes)
        × Sums sha256_url bytes
        × Swapped bytes s

    apply_in_place-Triple :
        (pin expected asset_url sha256_url : String)
        → Triple InPlace
            (apply_in_place web pin expected asset_url sha256_url)
            (λ _. Updated asset_url sha256_url)
            (λ _. IsSafe)
    unfolding apply_in_place
    apply_in_place-Triple pin expected asset_url sha256_url =
        Triple-bind (λ _. InPlace) _ _
          (Triple-if (not (str_eq pin "") && not (str_eq pin expected)) _ _
            (λ _. Triple-raise pinned (λ s p. inl p)) (λ _. Triple-pure tt (λ s p. p)))
          (λ _. Triple-bind _ _ _ (early (download-Fetched asset_url)) (λ bytes.
            Triple-given (web.body asset_url ≡ some bytes) (Fetched bytes) (λ s p. p)
              (λ served.
                Triple-bind (λ _ s. Sums sha256_url bytes × Fetched bytes s) _ _
                  (Triple-if (str_eq sha256_url "") _ _ (λ e. Triple-pure tt (λ s p. (inl e, p)))
                    (λ _. early (
                      drops (Fetched bytes) (verify web bytes sha256_url)
                        (verify-Sums bytes sha256_url))))
                  (λ _.
                    Triple-given (Sums sha256_url bytes) (Fetched bytes) (λ s p. p)
                      (λ sums.
                        Triple-weaken _ (λ _. IsSafe) (λ _ s p. (bytes, served, sums, p))
                          (λ _ s p. p) (swap_binary-Swapped bytes))))))
      where
        early :
            {A : Type 0} {P : Binaries → Type 0} {m : Swap A} {Q : A → Binaries → Type 0}
            → Triple P m Q (λ _. InPlace)
            → Triple P m Q (λ _. IsSafe)
        early {Q} t = Triple-weaken Q (λ _. InPlace) (λ _ s q. q) (λ _ s p. inl p) t

module _ (web : Web) (pin expected asset_url sha256_url b : String) (w : World Binaries)
    (there : w.state.binary ≡ some b) where
  -- An update in place, whatever call is refused: behind a success the binary is what the URL
  -- served, with the digest of the checksum file if the plan names one, and the old one is the
  -- previous one; behind an error the old binary is in its place, or there is none and it is the
  -- previous one.
  pub apply_in_place-Updated :
      Outcome
        (λ _. Updated b web asset_url sha256_url)
        (λ _. IsSafe b)
        (apply_in_place web pin expected asset_url sha256_url w).0
        (apply_in_place web pin expected asset_url sha256_url w).1.state
  apply_in_place-Updated =
      (apply_in_place-Triple b web pin expected asset_url sha256_url).at w there

  rolled_back :
      (bytes : String) (s : Binaries)
      → Swapped b bytes s
      → rollback_in_place (record { state = s; faults = [] }) ≡ (
        ok tt,
        record {
          state = record s { binary = some b; prev = none; failed = some bytes };
          faults = [];
        },
      )
  unfolding rollback_in_place attempt
  rolled_back bytes s p = rw (p.0, rollback_in_place) (rw (p.1, rollback_in_place) refl)

  -- A rollback behind an update that succeeded, where it is not refused a call, brings the old
  -- binary back.
  pub rollback-apply_in_place :
      (apply_in_place web pin expected asset_url sha256_url w).0 ≡ ok tt
      → (rollback_in_place (record {
        state = (apply_in_place web pin expected asset_url sha256_url w).1.state;
        faults = [];
      })).1.state.binary
        ≡ w.state.binary
  rollback-apply_in_place h =
      let u =
        Outcome-ok (λ _. Updated b web asset_url sha256_url) (λ _. IsSafe b) _ _ tt h
          apply_in_place-Updated in
      rw (rolled_back u.0 (apply_in_place web pin expected asset_url sha256_url w).1.state u.3)
        (sym there)
