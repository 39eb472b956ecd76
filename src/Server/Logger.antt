-- ===== src/Server/Logger.antt =====
-- server/logger.go: the level and the format of the log, from the flags. Text is a list of code points.
use Prim.Native.Char.{code}
use distrib_kv.Prelude.{
  ℕ, ◌+◌, List, [], ◌∷◌, Option, none, some, Bool, leb, ◌==◌, ◌&&◌, ◌||◌, if◌then◌else◌, String,
  map,
}
use distrib_kv.Raft.File.{same_bytes}

abbrev pub codes : String → List ℕ
codes String.[] = []
codes (String.◌∷◌ c s) = code c ∷ codes s

-- unicode.IsSpace
unfoldable pub is_space : ℕ → Bool
is_space c =
    (leb 9 c && leb c 13)
    || c == 32
    || c == 0x85
    || c == 0xa0
    || c == 0x1680
    || (leb 0x2000 c && leb c 0x200a)
    || c == 0x2028
    || c == 0x2029
    || c == 0x202f
    || c == 0x205f
    || c == 0x3000

unfoldable pub trim_left : List ℕ → List ℕ
trim_left [] = []
trim_left (c ∷ s) = let rest = trim_left s in if is_space c then rest else c ∷ s

-- The trailing spaces go where nothing but spaces follows.
unfoldable pub trim_right : List ℕ → List ℕ
trim_right [] = []
trim_right (c ∷ s) = elim (trim_right s) [
  | [] ↦ if is_space c then [] else c ∷ []
  | d ∷ ds ↦ c ∷ d ∷ ds
]

-- strings.ToLower, as far as it can give an ASCII character: the capital letters of ASCII, the capital
-- I with a dot, and the sign of the kelvin.
unfoldable pub to_lower : ℕ → ℕ
to_lower c =
    if leb 65 c && leb c 90
    then c + 32
    else if c == 0x130
    then 105
    else if c == 0x212a
    then 107
    else c

-- strings.ToLower(strings.TrimSpace(s))
unfoldable pub normalize : String → List ℕ
unfolding is_space trim_left trim_right to_lower
normalize s = map to_lower (trim_right (trim_left (codes s)))

abbrev pub is_word : List ℕ → String → Bool
is_word s w = same_bytes s (codes w)

pub data Level : Type 0 where
  debug info warn error : Level

pub data Format : Type 0 where
  text json : Format

-- `parseLevel`; none is its error.
unfoldable pub parse_level : String → Option Level
unfolding normalize same_bytes
parse_level s =
    let w = normalize s in
    if is_word w "" || is_word w "info"
    then some info
    else if is_word w "debug"
    then some debug
    else if is_word w "warn" || is_word w "warning"
    then some warn
    else if is_word w "error"
    then some error
    else none

-- The switch of `buildHandler`.
unfoldable pub parse_format : String → Option Format
unfolding normalize same_bytes
parse_format s =
    let w = normalize s in
    if is_word w "" || is_word w "text"
    then some text
    else if is_word w "json"
    then some json
    else none

-- `buildLoggerTo`
unfoldable pub build_logger : String → String → Option (Level × Format)
unfolding parse_level parse_format
build_logger level format = elim (parse_level level) [
  | none ↦ none
  | some l ↦ elim (parse_format format) [ none ↦ none | some f ↦ some (l, f) ]
]
