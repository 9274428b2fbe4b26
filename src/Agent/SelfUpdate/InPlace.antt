-- ===== src/Agent/SelfUpdate/InPlace.antt =====
-- internal/agent/selfupdate.go, Updater.Apply and Updater.Rollback: the update of a binary in its
-- place, which Windows keeps. A file is its bytes.
pub mod Swapped
use uncluster.Prelude.{
  String, Bool, true, false, not, ◌&&◌, Option, none, some, if◌then◌else◌, str_eq,
}
use uncluster.Prelude.Exec.{Result, ok, err, Exec, attempt, pure, raise, recover, ◌>>=◌, ◌>>◌}
use uncluster.Agent.SelfUpdate.{Web, digest_matches}

-- The running binary, and beside it those of the suffixes .new, prevSuffix and .failed.
pub record Binaries : Type 0 where
  pub binary : Option String
  pub fresh : Option String
  pub prev : Option String
  pub failed : Option String

pub data SwapError : Type 0 where
  pinned download_failed checksum_mismatch refused no_prev : SwapError

abbrev pub Swap : Type 0 → Type 0
Swap A = Exec SwapError Binaries A

abbrev pub act : (Binaries → Binaries) → Swap (Unit {0})
act f = attempt refused (λ s. (ok tt, f s))

abbrev needs : {A : Type 0} → SwapError → Option A → Swap A
needs e none = raise e
needs e (some a) = pure a

-- The file is opened with O_TRUNC, then the body is copied into it.
unfoldable pub download : Web → String → Swap String
download web url = do
  act (λ s. s)
  bytes ← needs download_failed (web.body url)
  act (λ s. record s { fresh = some "" })
  act (λ s. record s { fresh = some bytes })
  pure bytes

-- `_ = os.Remove(newPath)`
abbrev pub drop_fresh : Swap (Unit {0})
drop_fresh = recover (λ _. pure tt) (act (λ s. record s { fresh = none }))

-- if err := ...; err != nil { _ = os.Remove(newPath); return err }
abbrev pub or_drop : Swap (Unit {0}) → Swap (Unit {0})
or_drop m = recover (λ e. drop_fresh >> raise e) m

unfoldable pub verify : Web → String → String → Swap (Unit {0})
unfolding digest_matches
verify web bytes sha256_url = do
  act (λ s. s)
  raw ← needs download_failed (web.body sha256_url)
  act (λ s. s)
  if digest_matches web bytes raw then pure tt else raise checksum_mismatch

-- os.Rename of the binary to the previous one, where a binary that does not exist is no error
abbrev pub set_aside : Binaries → Binaries
set_aside s = elim s.binary as (λ _. Binaries) [
  | none ↦ s
  | some b ↦ record s { binary = none; prev = some b }
]

abbrev install : Binaries → Result SwapError (Unit {0}) × Binaries
install s = elim s.fresh as (λ _. Result SwapError (Unit {0}) × Binaries) [
  | none ↦ (err refused, s)
  | some b ↦ (ok tt, record s { binary = some b; fresh = none })
]

abbrev put_back : Binaries → Result SwapError (Unit {0}) × Binaries
put_back s = elim s.prev as (λ _. Result SwapError (Unit {0}) × Binaries) [
  | none ↦ (err refused, s)
  | some b ↦ (ok tt, record s { binary = some b; prev = none })
]

-- `_ = os.Rename(prevPath, binaryPath)`
abbrev pub undo : Swap (Unit {0})
undo = recover (λ _. pure tt) (attempt refused put_back)

unfoldable pub swap_binary : Swap (Unit {0})
swap_binary = do
  or_drop (act (λ s. s))
  or_drop (act set_aside)
  recover (λ e. undo >> raise e) (attempt refused install)

unfoldable pub apply_in_place : Web → String → String → String → String → Swap (Unit {0})
unfolding download verify swap_binary str_eq
apply_in_place web pin expected asset_url sha256_url = do
  if not (str_eq pin "") && not (str_eq pin expected) then raise pinned else pure tt
  bytes ← download web asset_url
  if str_eq sha256_url "" then pure tt else or_drop (verify web bytes sha256_url)
  swap_binary

abbrev stat_prev : Binaries → Result SwapError (Unit {0}) × Binaries
stat_prev s = elim s.prev as (λ _. Result SwapError (Unit {0}) × Binaries) [
  | none ↦ (err no_prev, s)
  | some b ↦ (ok tt, s)
]

abbrev pub set_failed : Binaries → Binaries
set_failed s = elim s.binary as (λ _. Binaries) [
  | none ↦ s
  | some b ↦ record s { binary = none; failed = some b }
]

unfoldable pub rollback_in_place : Swap (Unit {0})
rollback_in_place = do attempt refused stat_prev; act set_failed; attempt refused put_back
