-- ===== src/Validate/Skip.antt =====
-- internal/validate/skip.go: when a validation may be skipped. A line of the log that does not parse is
-- not in the list, and times before the epoch are left out.
pub mod Newest
use Prim.Native.String.{◌++◌ as join}
use uncluster.Prelude.{
  ℕ, String, Bool, true, false, not, ◌&&◌, leb, Option, none, some, List, [], ◌∷◌, if◌then◌else◌,
  str_eq, codes, leb_codes, sort,
}

pub record Breadcrumb : Type 0 where
  pub ts : ℕ
  pub commit : String
  pub dirty : Bool
  pub tier : String
  pub target : String
  pub checks : List String
  pub result : String
  pub evidence_path : String

pub record SkipQuery : Type 0 where
  pub commit : String
  pub dirty : Bool
  pub tier : String
  pub target : String
  pub checks : List String

-- strings.Join(cp, ",")
unfoldable pub joined : List String → String
joined [] = ""
joined (c ∷ []) = c
joined (c ∷ d ∷ cs) = join c (join "," (joined (d ∷ cs)))

-- sort.Strings orders bytewise.
unfoldable pub normalized_checks : List String → String
unfolding joined sort leb_codes
normalized_checks cs = joined (sort (λ a b. leb_codes (codes a) (codes b)) cs)

-- The three `continue`s of the loop.
unfoldable pub fits : SkipQuery → Breadcrumb → Bool
unfolding normalized_checks str_eq
fits q bc =
    not bc.dirty
    && (str_eq bc.commit q.commit
        && (str_eq bc.tier q.tier
            && (str_eq bc.target q.target
                && str_eq (normalized_checks bc.checks) (normalized_checks q.checks))))

abbrev pub newer : Option Breadcrumb → Breadcrumb → Bool
newer none bc = true
newer (some best) bc = leb best.ts bc.ts

unfoldable pub best_of : SkipQuery → Option Breadcrumb → List Breadcrumb → Option Breadcrumb
unfolding fits
best_of q best [] = best
best_of q best (bc ∷ bcs) = best_of q (if fits q bc && newer best bc then some bc else best) bcs

abbrev pub passing : Option Breadcrumb → Bool
passing none = false
passing (some best) = str_eq best.result "pass"

-- The verdict without its message.
unfoldable pub should_skip : List Breadcrumb → SkipQuery → Bool
unfolding best_of str_eq
should_skip prior q = if q.dirty then false else passing (best_of q none prior)
