-- ===== src/Agent/PayloadStore/Activated.antt =====
-- What an activation that succeeds has done, and the versions that it turns down.
use uncluster.Prelude.{String, ◌≡◌, refl, true, false, some, []}
use uncluster.Prelude.Exec.{ok, err, attempt}
use uncluster.Agent.PayloadStore.{
  Payloads, is_quarantined_error, lists, version_ok, valid_version, is_quarantined, stat,
  read_current, swap_previous, swap_current, activate,
}

-- A quarantined version is turned down where no call is refused, and nothing changes.
pub activate_refuses :
    (v : String) (s : Payloads)
    → version_ok v ≡ true
    → lists v s.quarantined ≡ true
    → activate v (record { state = s; faults = [] })
      ≡ (err is_quarantined_error, record { state = s; faults = [] })
unfolding activate valid_version is_quarantined attempt
activate_refuses v s ok_v q = rw (ok_v, activate) (rw (q, activate) refl)

-- A version that is staged, not quarantined and runs already becomes its own last good version: the
-- version that was recorded as the last good one is forgotten. No call is refused.
pub activate_again :
    (v : String) (s : Payloads)
    → version_ok v ≡ true
    → lists v s.quarantined ≡ false
    → lists v s.staged ≡ true
    → s.current ≡ some v
    → activate v (record { state = s; faults = [] })
      ≡ (ok tt, record { state = record s { current = some v; previous = some v }; faults = [] })
unfolding activate valid_version is_quarantined stat read_current swap_previous swap_current attempt
activate_again v s ok_v q there now =
    rw (ok_v, activate) (rw (q, activate) (rw (there, activate) (rw (now, activate) refl)))
