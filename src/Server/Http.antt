-- ===== src/Server/Http.antt =====
-- What a handler answers: a value of the 2xx response, or the status of writeError. The text of an
-- error is left out. A handler's effects on the database stay, whatever it answers.
pub mod Rules
use uncluster.Prelude.{Bool, true, false, Option, none, some}
use uncluster.Prelude.Exec.{Result, ok, err, World, Exec, pure, raise}
use uncluster.Store.Db.{StoreError, Db, Sql}

pub data Status : Type 0 where
  bad_request unauthorized forbidden not_found conflict gone internal unavailable : Status

abbrev pub Http : Type 0 → Type 0
Http A = Exec Status Db A

abbrev pub status_of :
    {A : Type 0}
    → (StoreError → Status)
    → Result StoreError A × World Db
    → Result Status A × World Db
status_of f (ok a, w) = (ok a, w)
status_of f (err e, w) = (err (f e), w)

-- `if err != nil { writeError(...); return }`
abbrev pub or_status : {A : Type 0} → (StoreError → Status) → Sql A → Http A
or_status f m w = status_of f (m w)

-- `if !b { writeError(...); return }`
abbrev pub guard : Bool → Status → Http (Unit {0})
guard true s = pure tt
guard false s = raise s

abbrev pub some_or : {A : Type 0} → Status → Option A → Http A
some_or s none = raise s
some_or s (some a) = pure a

-- `_ = f(...)`, or an error that is only logged.
abbrev pub ignore : {A : Type 0} → Sql A → Http (Unit {0})
ignore m w = (ok tt, (m w).1)

abbrev pub kept :
    {A : Type 0} → Result StoreError A × World Db → Result Status (Option A) × World Db
kept (ok a, w) = (ok (some a), w)
kept (err e, w) = (ok none, w)

-- `if a, err := f(...); err == nil`
abbrev pub try : {A : Type 0} → Sql A → Http (Option A)
try m w = kept (m w)

-- Any error of the store is a 500.
abbrev pub or_internal : StoreError → Status
or_internal e = internal

-- Any error of the store is a 404.
abbrev pub or_not_found : StoreError → Status
or_not_found e = Status.not_found

-- ErrNotFound is a 404, any other error a 500.
abbrev pub missing_or_internal : StoreError → Status
missing_or_internal StoreError.not_found = Status.not_found
missing_or_internal e = internal
