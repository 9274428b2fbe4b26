-- ===== src/Agent/Dir.antt =====
-- The principals directory: its entries by name, and the calls of package os on it, each of which
-- the system may refuse. A file is the list of its lines.
use uncluster.Prelude.{
  String, ◌≡◌, Bool, false, not, Option, none, some, List, [], ◌∷◌, ◌++◌, if◌then◌else◌, str_eq,
  str_eq_iff, find, filter, arith,
}
use uncluster.Prelude.Exec.{Result, ok, err, Exec, attempt}

pub data Node : Type 0 where
  file : List String → Node
  directory : Bool → Node

pub record Entry : Type 0 where
  pub name : String
  pub node : Node

abbrev pub Dir : Type 0
Dir = List Entry

-- `invalid` is a payload that is turned down, `io` a refusal by the system.
pub data AgentError : Type 0 where
  invalid io : AgentError

abbrev pub Os : Type 0 → Type 0
Os A = Exec AgentError Dir A

abbrev node_of : Option Entry → Option Node
node_of none = none
node_of (some e) = some e.node

unfoldable pub node_at : String → Dir → Option Node
unfolding find str_eq
node_at n d = node_of (find (λ e. str_eq e.name n) d)

unfoldable pub drop : String → Dir → Dir
unfolding filter str_eq
drop n d = filter (λ e. not (str_eq e.name n)) d

unfoldable pub put : String → Node → Dir → Dir
unfolding drop
put n x d = record { name = n; node = x } ∷ drop n d

-- os.OpenFile with O_WRONLY|O_CREATE|O_TRUNC
abbrev pub opened : String → Dir → Option Node → Result AgentError (Unit {0}) × Dir
opened n d (some (directory e)) = (err io, d)
opened n d _ = (ok tt, put n (file []) d)

unfoldable pub open_trunc : String → Os (Unit {0})
unfolding node_at put
open_trunc n = attempt io (λ d. opened n d (node_at n d))

-- fmt.Fprintln to the open file
abbrev pub with_line : String → String → Dir → Option Node → Dir
with_line n line d (some (file ls)) = put n (file (ls ++ line ∷ [])) d
with_line n line d _ = d

unfoldable pub print_line : String → String → Os (Unit {0})
unfolding node_at put
print_line n line = attempt io (λ d. (ok tt, with_line n line d (node_at n d)))

-- Sync, Close, MkdirAll of a directory that is there: no effect on the entries.
unfoldable pub settle : Os (Unit {0})
settle = attempt io (λ d. (ok tt, d))

-- os.Rename onto a file or a free name
abbrev pub renamed :
    String → String → Dir → Option Node → Option Node → Result AgentError (Unit {0}) × Dir
renamed from to d none _ = (err io, d)
renamed from to d (some x) (some (directory e)) = (err io, d)
renamed from to d (some x) _ = (ok tt, put to x (drop from d))

unfoldable pub rename : String → String → Os (Unit {0})
unfolding node_at put drop
rename from to = attempt io (λ d. renamed from to d (node_at from d) (node_at to d))

-- os.Remove, where "does not exist" is no error to the code
abbrev pub removed : String → Dir → Option Node → Result AgentError (Unit {0}) × Dir
removed n d (some (directory false)) = (err io, d)
removed n d _ = (ok tt, drop n d)

unfoldable pub remove : String → Os (Unit {0})
unfolding node_at drop
remove n = attempt io (λ d. removed n d (node_at n d))

unfoldable pub read_dir : Os Dir
read_dir = attempt io (λ d. (ok d, d))

pub node_at-drop :
    (u n : String) (d : Dir) → node_at u (drop n d) ≡ (if str_eq n u then none else node_at u d)
unfolding node_at drop filter find
node_at-drop u n [] = ground arith
node_at-drop u n (e ∷ d) =
    ground (arith, str_eq_iff e.name n, str_eq_iff e.name u, str_eq_iff n u, node_at-drop u n d)

pub node_at-put :
    (u n : String) (x : Node) (d : Dir)
    → node_at u (put n x d) ≡ (if str_eq n u then some x else node_at u d)
unfolding put node_at find
node_at-put u n x d = ground (arith, node_at-drop u n d)
