-- ===== src/Agent/SelfUpdate/Text.antt =====
-- The texts of internal/agent/selfupdate.go and updatehost.go: the template of a URL, the first field
-- of a checksum file, and comparison without case. Only ASCII letters have a case here.
use Prim.Native.String.{String}
use uncluster.Prelude.{
  ℕ, zero, suc, ◌+◌, Bool, true, false, ◌&&◌, ◌==◌, leb, List, [], ◌∷◌, map, if◌then◌else◌, str_eq,
  has_prefix, prepend, is_space, ◌≡◌, refl,
}

-- What stands for {os}, {arch}, {version} and {ext}.
pub record Placeholders : Type 0 where
  pub os : String
  pub arch : String
  pub version : String
  pub ext : String

-- The replacer's choice at a place: the text to write, and how many characters to pass over behind
-- the first one.
unfoldable pub replacement : Placeholders → String → String → String × ℕ
unfolding has_prefix
replacement p first s =
    if has_prefix "{os}" s
    then (p.os, 3)
    else if has_prefix "{arch}" s
    then (p.arch, 5)
    else if has_prefix "{version}" s
    then (p.version, 8)
    else if has_prefix "{ext}" s
    then (p.ext, 4)
    else (first, 0)

-- strings.Replacer: one pass from the left; what is written is not looked at again.
unfoldable pub replace_from : Placeholders → ℕ → String → String
unfolding replacement
replace_from p n String.[] = String.[]
replace_from p (suc n) (String.◌∷◌ c s) = replace_from p n s
replace_from p zero (String.◌∷◌ c s) =
    let (out, n) = replacement p (String.◌∷◌ c String.[]) (String.◌∷◌ c s) in
    prepend out (replace_from p n s)

unfoldable pub placeholders : String → String → String → Placeholders
unfolding str_eq
placeholders goos goarch ver = record {
  os = goos;
  arch = goarch;
  version = ver;
  ext = if str_eq goos "windows" then ".exe" else "";
}

unfoldable pub resolve_template : String → String → String → String → String
unfolding placeholders replace_from
resolve_template tmpl goos goarch ver = replace_from (placeholders goos goarch ver) 0 tmpl

resolve_test :
    resolve_template "https://github.com/u/{version}/u_{os}_{arch}{ext}" "windows" "amd64" "1.2"
    ≡ "https://github.com/u/1.2/u_windows_amd64.exe"
unfolding resolve_template
resolve_test = refl

abbrev pub lower_code : ℕ → ℕ
lower_code c = if leb b'A' c && leb c b'Z' then c + 32 else c

-- strings.ToLower
unfoldable pub to_lower : List ℕ → List ℕ
to_lower xs = map lower_code xs

unfoldable pub codes_eq : List ℕ → List ℕ → Bool
codes_eq [] [] = true
codes_eq [] (y ∷ ys) = false
codes_eq (x ∷ xs) [] = false
codes_eq (x ∷ xs) (y ∷ ys) = x == y && codes_eq xs ys

-- strings.EqualFold
unfoldable pub equal_fold : List ℕ → List ℕ → Bool
unfolding codes_eq to_lower
equal_fold xs ys = codes_eq (to_lower xs) (to_lower ys)

until_space : List ℕ → List ℕ
unfolding is_space
until_space [] = []
until_space (c ∷ cs) = let rest = until_space cs in if is_space c then [] else c ∷ rest

-- The first of strings.Fields; empty where there is none.
unfoldable pub first_field : List ℕ → List ℕ
unfolding until_space is_space
first_field [] = []
first_field (c ∷ cs) = let rest = first_field cs in if is_space c then rest else c ∷ until_space cs
