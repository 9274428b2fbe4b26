-- ===== src/Token.antt =====
-- internal/token/token.go: the text form of a token and the check of its secret.
pub mod RoundTrip
use Prim.Native.Char.{Char, code}
use Prim.Native.String.{len, ◌++◌ as concat}
use uncluster.Prelude.{
  ℕ, ◌%◌, String, Bool, true, false, ◌&&◌, Option, none, some, List, [], ◌∷◌, ◌==◌, if◌then◌else◌,
  str_eq, length,
}

pub data Kind : Type 0 where
  join agent cli caller : Kind

pub record Token : Type 0 where
  pub kind : Kind
  pub id : String
  pub secret : String

abbrev pub id_len : ℕ
id_len = 16

abbrev pub secret_len : ℕ
secret_len = 52

-- What the code takes from the standard library and from golang.org/x/crypto: base32 without padding
-- and its decoder (none on an error), `fmt.Sscanf` with "m=%d,t=%d,p=%d", `argon2.IDKey` over the
-- secret, the salt, the time, the memory, the threads and the key's length.
pub record Crypto : Type 0 where
  pub b32_encode : List ℕ → String
  pub b32_decode : String → Option (List ℕ)
  pub scan_params : String → Option (ℕ × ℕ × ℕ)
  pub id_key : String → List ℕ → ℕ → ℕ → ℕ → ℕ → List ℕ

abbrev pub kind_text : Kind → String
kind_text join = "join"
kind_text agent = "agent"
kind_text cli = "cli"
kind_text caller = "caller"

-- Kind(parts[0]) with validKind.
unfoldable pub read_kind : String → Option Kind
unfolding str_eq
read_kind s =
    if str_eq s "join"
    then some join
    else if str_eq s "agent"
    then some agent
    else if str_eq s "cli"
    then some cli
    else if str_eq s "caller"
    then some caller
    else none

unfoldable pub to_text : Token → String
to_text t =
    concat "uct_" (concat (kind_text t.kind) (concat "_" (concat t.id (concat "_" t.secret))))

-- s[len(prefix):] behind strings.HasPrefix.
unfoldable pub strip_prefix : String → String → Option String
strip_prefix String.[] s = some s
strip_prefix (String.◌∷◌ c p) String.[] = none
strip_prefix (String.◌∷◌ c p) (String.◌∷◌ d s) =
    let rest = strip_prefix p s in if code c == code d then rest else none

-- The text before the first separator, and the text behind it.
unfoldable pub cut : ℕ → String → Option (String × String)
cut b String.[] = none
cut b (String.◌∷◌ c s) =
    let rest : Option (String × String) = elim (cut b s) [
      | none ↦ none
      | some (u, v) ↦ some (String.◌∷◌ c u, v)
    ] in
    if code c == b then some (String.[], s) else rest

-- strings.SplitN(rest, "_", 3), where it gives three parts.
unfoldable pub split3 : String → Option (String × String × String)
unfolding cut
split3 s = elim (cut b'_' s) [
  | none ↦ none
  | some (first, rest) ↦ elim (cut b'_' rest) [
    | none ↦ none
    | some (second, third) ↦ some (first, second, third)
  ]
]

abbrev decodes : Option (List ℕ) → Bool
decodes none = false
decodes (some _) = true

-- The checks behind the split, in the order of the code.
unfoldable pub parse_parts : Crypto → String × String × String → Option Token
unfolding read_kind
parse_parts c (kind, id, secret) = elim (read_kind kind) [
  | none ↦ none
  | some k ↦
      if (len id == id_len)
        && ((len secret == secret_len)
            && (decodes (c.b32_decode id) && decodes (c.b32_decode secret)))
      then some (record { kind = k; id = id; secret = secret })
      else none
]

-- Every refusal is one error here: no caller tells them apart.
unfoldable pub parse : Crypto → String → Option Token
unfolding strip_prefix split3 parse_parts
parse c s = elim (strip_prefix "uct_" s) [
  | none ↦ none
  | some rest ↦ elim (split3 rest) [ none ↦ none | some parts ↦ parse_parts c parts ]
]

-- One more character in front of the parts: a separator begins a part.
abbrev cons_part : Bool → Char → List String → List String
cons_part true c parts = String.[] ∷ parts
cons_part false c [] = []
cons_part false c (p ∷ parts) = String.◌∷◌ c p ∷ parts

-- strings.Split(s, "$")
unfoldable pub split_dollar : String → List String
split_dollar String.[] = String.[] ∷ []
split_dollar (String.◌∷◌ c s) = cons_part (code c == b'$') c (split_dollar s)

unfoldable pub same_bytes : List ℕ → List ℕ → Bool
same_bytes [] [] = true
same_bytes (x ∷ xs) (y ∷ ys) = (x == y) && same_bytes xs ys
same_bytes _ _ = false

abbrev u32 : ℕ → ℕ
u32 n = n % 4294967296

abbrev u8 : ℕ → ℕ
u8 n = n % 256

-- The parameters, the salt and the key of the stored text, in turn; none is an error.
unfoldable pub verify_parts : Crypto → String → String → String → String → Option Bool
unfolding same_bytes
verify_parts c secret params salt_text key_text = elim (c.scan_params params) [
  | none ↦ none
  | some (m, t, p) ↦ elim (c.b32_decode salt_text) [
    | none ↦ none
    | some salt ↦ elim (c.b32_decode key_text) [
      | none ↦ none
      | some want ↦
          some (same_bytes (c.id_key secret salt (u32 t) (u32 m) (u8 p) (u32 (length want))) want)
    ]
  ]
]

abbrev verify_split : Crypto → String → List String → Option Bool
verify_split c secret (empty ∷ name ∷ version ∷ params ∷ salt ∷ key ∷ []) =
    if str_eq empty "" && (str_eq name "argon2id" && str_eq version "v=19")
    then verify_parts c secret params salt key
    else none
verify_split c secret _ = none

unfoldable pub verify_secret : Crypto → String → String → Option Bool
unfolding split_dollar verify_parts str_eq
verify_secret c secret stored = verify_split c secret (split_dollar stored)

-- HashSecret with the salt that `rand.Read` gave.
unfoldable pub hash_secret : Crypto → List ℕ → String → String
hash_secret c salt secret =
    concat "$argon2id$v=19$m=65536,t=3,p=2$"
      (concat (c.b32_encode salt) (concat "$" (c.b32_encode (c.id_key secret salt 3 65536 2 32))))
