-- ===== src/Agent/Host.antt =====
-- What the launcher and the payload that it runs share (internal/agent/launcher.go and
-- healthmarker.go): the payload store, the two marker files, and the process that runs. A marker is
-- the version in it, where its JSON reads and has the known schema version.
use uncluster.Prelude.{String, Bool, Option, List, ◌≡◌, refl}
use uncluster.Prelude.Exec.{Result, ok, err, World, Exec, attempt, pure, recover}
use uncluster.Prelude.Exec.Triple.{Triple, Outcome}
use uncluster.Agent.PayloadStore.{Payloads, PayloadError, Payload}

-- A URL that the payload has handed to its HTTP client, and where the client was redirected to.
pub record Fetch : Type 0 where
  pub url : String
  pub followed : List String

-- `stop` is what the predicate shouldStop answers, `cancelled` whether the context is done, `child`
-- the version whose process runs, and `fetched` the requests that the payload has made, the last
-- one first.
pub record Host : Type 0 where
  pub payloads : Payloads
  pub pending : Option String
  pub health : Option String
  pub stop : Bool
  pub cancelled : Bool
  pub child : Option String
  pub fetched : List Fetch

-- `io` is a refusal by the system that the code passes over.
pub data HostError : Type 0 where
  resolve_failed : PayloadError → HostError
  rollback_failed : PayloadError → HostError
  update_failed : PayloadError → HostError
  start_failed io : HostError
  no_plan disallowed_host download_failed checksum_mismatch quarantined_version : HostError

abbrev pub OnHost : Type 0 → Type 0
OnHost A = Exec HostError Host A

module _ {A : Type 0} where
  -- Memory of the process, or an injected predicate: nothing that the system refuses.
  unfoldable pub get : (Host → A) → OnHost A
  get f w = (ok (f w.state), w)

  abbrev pub lifted :
      (PayloadError → HostError)
      → Host
      → Result PayloadError A × World Payloads
      → Result HostError A × World Host
  lifted f h (ok a, w) =
      (ok a, record { state = record h { payloads = w.state }; faults = w.faults })
  lifted f h (err e, w) =
      (err (f e), record { state = record h { payloads = w.state }; faults = w.faults })

  -- An operation of the payload store.
  unfoldable pub on_store : (PayloadError → HostError) → Payload A → OnHost A
  on_store f m w = lifted f w.state (m (record { state = w.state.payloads; faults = w.faults }))

  lifted-Outcome :
      (Q : A → Host → Type 0) (F : HostError → Host → Type 0) (f : PayloadError → HostError)
      (h : Host) (r : Result PayloadError A) (w : World Payloads)
      → Outcome
          (λ a s. Q a (record h { payloads = s }))
          (λ e s. F (f e) (record h { payloads = s }))
          r
          w.state
      → Outcome Q F (lifted f h (r, w)).0 (lifted f h (r, w)).1.state
  lifted-Outcome Q F f h (ok a) w o = o
  lifted-Outcome Q F f h (err e) w o = o

  module _ {P : Host → Type 0} {Q : A → Host → Type 0} {F : HostError → Host → Type 0} where
    pub Triple-get : (f : Host → A) → ((h : Host) → P h → Q (f h) h) → Triple P (get f) Q F
    unfolding get
    Triple-get f k = record { at = λ w p. k w.state p }

    pub Triple-on_store :
        (f : PayloadError → HostError) (m : Payload A)
        → ((h : Host)
            → P h
            → Triple
                (λ s. s ≡ h.payloads)
                m
                (λ a s. Q a (record h { payloads = s }))
                (λ e s. F (f e) (record h { payloads = s })))
        → Triple P (on_store f m) Q F
    unfolding on_store
    Triple-on_store f m k = record {
      at = λ w p.
          lifted-Outcome Q F f w.state _ _
            ((k w.state p).at (record { state = w.state.payloads; faults = w.faults }) refl);
    }

-- A change of the process's own memory, or by another process.
unfoldable pub modify : (Host → Host) → OnHost (Unit {0})
modify f w = (ok tt, record { state = f w.state; faults = w.faults })

pub Triple-modify :
    {P : Host → Type 0} {Q : Unit {0} → Host → Type 0} {F : HostError → Host → Type 0}
    (f : Host → Host)
    → ((h : Host) → P h → Q tt (f h))
    → Triple P (modify f) Q F
unfolding modify
Triple-modify f k = record { at = λ w p. k w.state p }

-- A call whose error is passed over: `_ = os.Remove(path)`.
unfoldable pub try_call : (Host → Host) → OnHost (Unit {0})
try_call f = recover (λ _. pure tt) (attempt io (λ h. (ok tt, f h)))
