-- ===== src/Agent/Launcher/Recovery.antt =====
-- What becomes of a version that misses its health commit.
use uncluster.Prelude.{
  ℕ, zero, suc, String, ◌≡◌, refl, true, false, none, some, List, [], ◌∷◌, str_eq_refl, any,
}
use uncluster.Prelude.Exec.{err, attempt}
use uncluster.Agent.PayloadStore.{
  is_quarantined_error, activate, lists, version_ok, valid_version, current_version, swap_current,
  rollback, quarantine,
}
use uncluster.Agent.PayloadStore.Activated.{activate_refuses}
use uncluster.Agent.Host.{Host, get, modify, on_store, try_call}
use uncluster.Agent.Launcher.{
  missed, Phase, beginning, waiting, start_payload, resolve_and_start, begin, halt,
  supervise_until_healthy, demote_bad_version, after_early, early_step, settle,
}
use uncluster.Agent.Launcher.Reach.{at}

lists-first : (v : String) (vs : List String) → lists v (v ∷ vs) ≡ true
unfolding any
lists-first v vs = rw (str_eq_refl v)

-- The version is quarantined, and the current pointer is the previous one.
abbrev pub demoted : String → String → Host → Host
demoted v p h = record h {
  child = none;
  payloads = record h.payloads { current = some p; quarantined = v ∷ h.payloads.quarantined };
}

missed_demotes :
    (v p : String) (h : Host)
    → version_ok v ≡ true
    → h.cancelled ≡ false
    → h.payloads.previous ≡ some p
    → settle (early_step v missed (at h [])) ≡ (beginning, demoted v p h)
unfolding early_step supervise_until_healthy after_early demote_bad_version quarantine rollback
    swap_current valid_version on_store get halt modify attempt
missed_demotes v p h ok_v live prev =
    rw (live, early_step) (rw (ok_v, early_step) (rw (prev, early_step) refl))

-- The version that the current pointer names runs.
abbrev pub restarted : String → Host → Host
restarted p h = record h { health = none; child = some p }

begin_starts :
    (p : String) (h : Host)
    → h.stop ≡ false
    → h.payloads.current ≡ some p
    → lists p h.payloads.staged ≡ true
    → settle (begin (at h [])) ≡ (waiting p, restarted p h)
unfolding begin resolve_and_start start_payload current_version try_call on_store get attempt
begin_starts p h wanted cur there = rw (wanted, begin) (rw (cur, begin) (rw (there, begin) refl))

-- The version misses its deadline, and the loop begins anew.
abbrev pub miss_and_restart : String → Host → Phase × Host
miss_and_restart v h = settle (begin (at (settle (early_step v missed (at h []))).1 []))

-- A version that misses its deadline is stopped and quarantined, and the last good one is started;
-- the store does not activate the bad one again. No call is refused, the launcher is not to stop, and
-- the last good one is there and staged.
pub missed_restores :
    (v p : String) (h : Host)
    → version_ok v ≡ true
    → h.cancelled ≡ false
    → h.stop ≡ false
    → h.payloads.previous ≡ some p
    → lists p h.payloads.staged ≡ true
    → (miss_and_restart v h ≡ (waiting p, restarted p (demoted v p h)))
      × (activate v (record { state = (miss_and_restart v h).1.payloads; faults = [] }) ≡ (
        err is_quarantined_error,
        record { state = (miss_and_restart v h).1.payloads; faults = [] },
      ))
missed_restores v p h ok_v live wanted prev there = (
  again,
  rw again (
      activate_refuses v (restarted p (demoted v p h)).payloads ok_v
        (lists-first v h.payloads.quarantined)),
)
  where
    again : miss_and_restart v h ≡ (waiting p, restarted p (demoted v p h))
    again =
        rw (missed_demotes v p h ok_v live prev) (begin_starts p (demoted v p h) wanted refl there)

-- The version is its own last good one.
record Alone (p : String) (h : Host) : Type 0 where
  live : h.cancelled ≡ false
  wanted : h.stop ≡ false
  current : h.payloads.current ≡ some p
  previous : h.payloads.previous ≡ some p
  staged : lists p h.payloads.staged ≡ true

-- `n` missed deadlines in a row.
abbrev pub misses : ℕ → String → Host → Phase × Host
misses zero v h = (waiting v, h)
misses (suc n) v h = miss_and_restart v (misses n v h).1

missed_of_Alone :
    (p : String) (h : Host)
    → version_ok p ≡ true
    → Alone p h
    → miss_and_restart p h ≡ (waiting p, restarted p (demoted p p h))
missed_of_Alone p h ok_p a = (missed_restores p p h ok_p a.live a.wanted a.previous a.staged).0

Alone-misses :
    (p : String) (h : Host) → version_ok p ≡ true → Alone p h → (n : ℕ) → Alone p (misses n p h).1
Alone-misses p h ok_p a zero = a
Alone-misses p h ok_p a (suc n) =
    let b = Alone-misses p h ok_p a n in
    rw (missed_of_Alone p (misses n p h).1 ok_p b) (record {
      live = b.live;
      wanted = b.wanted;
      current = refl;
      previous = b.previous;
      staged = b.staged;
    })

-- A restored version that misses its own deadline is restored again, by any number of misses: the
-- last good version is itself, so Run never returns the error of a missing one and starts a version
-- that it has quarantined. No call is refused, the launcher is not to stop, and the last good one
-- is there and staged.
pub restored_version_loops :
    (v p : String) (h : Host)
    → version_ok v ≡ true
    → version_ok p ≡ true
    → h.cancelled ≡ false
    → h.stop ≡ false
    → h.payloads.previous ≡ some p
    → lists p h.payloads.staged ≡ true
    → (n : ℕ)
    → ((misses (suc n) p (miss_and_restart v h).1).0 ≡ waiting p)
      × (lists p (misses (suc n) p (miss_and_restart v h).1).1.payloads.quarantined ≡ true)
restored_version_loops v p h ok_v ok_p live wanted prev there n =
    let first = (missed_restores v p h ok_v live wanted prev there).0 in
    let alone : Alone p (miss_and_restart v h).1 =
      rw first (record {
        live = live;
        wanted = wanted;
        current = refl;
        previous = prev;
        staged = there;
      }) in
    let last = Alone-misses p (miss_and_restart v h).1 ok_p alone n in
    rw (missed_of_Alone p (misses n p (miss_and_restart v h).1).1 ok_p last)
      (refl, lists-first p (misses n p (miss_and_restart v h).1).1.payloads.quarantined)
