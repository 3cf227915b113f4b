-- ===== src/ConfigSync/Guards.antt =====
-- internal/configsync/sync.go: `ValidateInstanceID`, `ValidateKey` and `RejectSecrets`. A setting
-- is a value of Go's `any`; what the guards read of it is the text that `fmt.Sprint` prints and,
-- for a map, its entries.
use Prim.Native.Char.{code}
use file_sync_engine.Prelude.{
  ℕ, suc, ◌+◌, ◌-◌, String, Bool, Option, none, some, map, true, false, not, ◌&&◌, ◌||◌, List, [],
  ◌∷◌, ◌==◌, leb, if◌then◌else◌, str_eq,
}
use mathlib.Core.List.{reverse}
use mathlib.Core.Option
use file_sync_engine.Prelude.Text.{contains}

mutual
  pub data Value : Type 0 where
    plain : String → Value
    object : String → Entries → Value

  pub data Entries : Type 0 where
    end : Entries
    entry : String → Value → Entries → Entries

-- strings.ToLower at one code point, as far as the result can be an ASCII letter: besides A to Z,
-- the Kelvin sign and the dotted capital I.
lower_code : ℕ → ℕ
lower_code c =
    if leb b'A' c && leb c b'Z'
    then c + 32
    else if c == 8490
    then b'k'
    else if c == 304
    then b'i'
    else c

-- The text begins with the marker, letters compared in lower case.
lower_prefix : String → String → Bool
unfolding lower_code
lower_prefix s String.[] = true
lower_prefix String.[] (String.◌∷◌ d t) = false
lower_prefix (String.◌∷◌ c s) (String.◌∷◌ d t) = (lower_code (code c) == code d) && lower_prefix s t

lower_contains : String → String → Bool
unfolding lower_prefix
lower_contains String.[] marker = lower_prefix String.[] marker
lower_contains (String.◌∷◌ c s) marker =
    lower_prefix (String.◌∷◌ c s) marker || lower_contains s marker

unfoldable pub any_marker : String → List String → Bool
unfolding lower_contains
any_marker value [] = false
any_marker value (marker ∷ markers) = lower_contains value marker || any_marker value markers

unfoldable pub secret_string : String → Bool
unfolding any_marker
secret_string value = any_marker value (
    "apikey" ∷ "api_key" ∷ "privatekey" ∷ "private_key" ∷ "password" ∷ "secret" ∷ "credential" ∷ [])

-- `RejectSecrets(value) != nil`
unfoldable mutual
  unfolding secret_string

  pub secret_value : Value → Bool
  secret_value (plain printed) = secret_string printed
  secret_value (object printed fields) = secret_string printed || secret_entries fields

  pub secret_entries : Entries → Bool
  secret_entries end = false
  secret_entries (entry key value rest) =
      secret_string key || secret_value value || secret_entries rest

-- `RejectSecrets(key, value) != nil`
abbrev pub rejects : String → Value → Bool
rejects key value = secret_string key || secret_value value

has_separator : String → Bool
has_separator String.[] = false
has_separator (String.◌∷◌ c rest) = code c == b'/' || code c == 92 || has_separator rest

-- `ValidateKey(key) == nil`
unfoldable pub valid_key : String → Bool
unfolding has_separator contains
valid_key key = not (str_eq key "" || contains key ".." || has_separator key)

-- The places of the UUID pattern.
pub data Place : Type 0 where
  hex dash version variant : Place

is_hex : ℕ → Bool
is_hex c = leb b'0' c && leb c b'9' || leb b'a' c && leb c b'f' || leb b'A' c && leb c b'F'

fits : Place → ℕ → Bool
unfolding is_hex
fits hex c = is_hex c
fits dash c = c == b'-'
fits version c = leb b'1' c && leb c b'8'
fits variant c = c == b'8' || c == b'9' || c == b'a' || c == b'b' || c == b'A' || c == b'B'

matches_places : List Place → String → Bool
unfolding fits
matches_places [] String.[] = true
matches_places [] (String.◌∷◌ c s) = false
matches_places (p ∷ places) String.[] = false
matches_places (p ∷ places) (String.◌∷◌ c s) = fits p (code c) && matches_places places s

-- `^[0-9a-f]{8}-[0-9a-f]{4}-[1-8][0-9a-f]{3}-[89ab][0-9a-f]{3}-[0-9a-f]{12}$`
abbrev uuid_places : List Place
uuid_places =
    hex ∷ hex ∷ hex ∷ hex ∷ hex ∷ hex ∷ hex ∷ hex ∷ dash ∷ hex ∷ hex ∷ hex ∷ hex ∷ dash ∷ version
    ∷ hex ∷ hex ∷ hex ∷ dash ∷ variant ∷ hex ∷ hex ∷ hex ∷ dash ∷ hex ∷ hex ∷ hex ∷ hex ∷ hex ∷ hex
    ∷ hex ∷ hex ∷ hex ∷ hex ∷ hex ∷ hex ∷ []

-- `ValidateInstanceID(id) == nil`
unfoldable pub valid_instance_id : String → Bool
unfolding matches_places
valid_instance_id id = matches_places uuid_places id

codes : String → List ℕ
codes String.[] = []
codes (String.◌∷◌ letter text) = code letter ∷ codes text

-- unicode.IsSpace
is_space : ℕ → Bool
is_space c =
    leb 9 c && leb c 13
    || c == 32
    || c == 133
    || c == 160
    || c == 5760
    || leb 8192 c && leb c 8202
    || c == 8232
    || c == 8233
    || c == 8239
    || c == 8287
    || c == 12288

trim_left : List ℕ → List ℕ
trim_left [] = []
trim_left (c ∷ cs) = let rest = trim_left cs in if is_space c then rest else c ∷ cs

-- strings.ToUpper at one code point, as far as the result can be an ASCII letter: besides a to z,
-- the dotless i and the long s.
upper_code : ℕ → ℕ
upper_code c =
    if leb b'a' c && leb c b'z'
    then c - 32
    else if c == 305
    then b'I'
    else if c == 383
    then b'S'
    else c

-- The digits and capitals of the pairing alphabet, which leaves out I, L, O and U.
is_code_char : ℕ → Bool
is_code_char c =
    leb b'0' c && leb c b'9'
    || leb b'A' c && leb c b'Z' && not (c == b'I' || c == b'L' || c == b'O' || c == b'U')

-- The number of characters that are kept, if every one of them is allowed.
count_code : List ℕ → Option ℕ
count_code [] = some 0
count_code (c ∷ cs) =
    if c == b'-' || c == 32
    then count_code cs
    else if is_code_char c
    then Option.map suc (count_code cs)
    else none

abbrev is_sixteen : Option ℕ → Bool
is_sixteen none = false
is_sixteen (some n) = n == 16

-- `normalizeOnboardingCode(code)` returns no error.
unfoldable pub valid_code : String → Bool
unfolding codes is_space trim_left upper_code is_code_char count_code
valid_code text =
    is_sixteen
      (count_code (map upper_code (reverse (trim_left (reverse (trim_left (codes text)))))))
