-- ===== src/Config/Paths.antt =====
-- filepath.Join and Clean on Unix, and strconv.Itoa, as config/config.go and server/run.go use them.
use Prim.Native.Char.{Char, code}
use Prim.Native.String.{◌++◌ as append_text}
use distrib_kv.Prelude.{
  ℕ, zero, suc, ◌/◌, ◌%◌, List, [], ◌∷◌, Bool, true, false, not, ltb, ◌==◌, if◌then◌else◌, String,
  str_eq, ℤ, pos, negsuc,
}

-- A character before the parts that follow it.
unfoldable pub split_char : Char → List String → List String
split_char c [] = []
split_char c (w ∷ ws) = if code c == 47 then "" ∷ w ∷ ws else (String.◌∷◌ c w) ∷ ws

-- The parts between the slashes.
unfoldable pub split_path : String → List String
unfolding split_char
split_path String.[] = "" ∷ []
split_path (String.◌∷◌ c s) = split_char c (split_path s)

unfoldable pub is_rooted : String → Bool
is_rooted String.[] = false
is_rooted (String.◌∷◌ c s) = code c == 47

-- `..` takes the last part back, stays at the root, and is kept where there is nothing to take back.
unfoldable pub go_up : Bool → List String → List String
go_up rooted [] = if rooted then [] else ".." ∷ []
go_up rooted (p ∷ ps) = if str_eq p ".." then ".." ∷ p ∷ ps else ps

-- One part of the path; the last part kept is first.
unfoldable pub push_part : Bool → List String → String → List String
unfolding go_up
push_part rooted ps w =
    if str_eq w ""
    then ps
    else if str_eq w "."
    then ps
    else if str_eq w ".."
    then go_up rooted ps
    else w ∷ ps

unfoldable pub push_parts : Bool → List String → List String → List String
unfolding push_part
push_parts rooted ps [] = ps
push_parts rooted ps (w ∷ ws) = push_parts rooted (push_part rooted ps w) ws

-- The kept parts with slashes between them.
unfoldable pub join_parts : List String → String
join_parts [] = ""
join_parts (p ∷ []) = p
join_parts (p ∷ q ∷ ps) = append_text (join_parts (q ∷ ps)) (append_text "/" p)

unfoldable pub render : Bool → List String → String
unfolding join_parts
render true ps = append_text "/" (join_parts ps)
render false [] = "."
render false (p ∷ ps) = join_parts (p ∷ ps)

-- filepath.Clean
unfoldable pub clean_path : String → String
unfolding split_path is_rooted push_parts render
clean_path s = let rooted = is_rooted s in render rooted (push_parts rooted [] (split_path s))

-- filepath.Join of two elements
unfoldable pub join_path : String → String → String
unfolding clean_path
join_path dir name =
    if str_eq dir ""
    then (if str_eq name "" then "" else clean_path name)
    else if str_eq name ""
    then clean_path dir
    else clean_path (append_text dir (append_text "/" name))

-- A path up to its last slash.
unfoldable pub up_to_slash : String → String
up_to_slash String.[] = ""
up_to_slash (String.◌∷◌ c s) =
    let rest = up_to_slash s in
    if not (str_eq rest "") then String.◌∷◌ c rest else if code c == 47 then "/" else ""

-- filepath.Dir
unfoldable pub dir_path : String → String
unfolding clean_path up_to_slash
dir_path s = clean_path (up_to_slash s)

unfoldable pub digit : ℕ → String
digit zero = "0"
digit (suc zero) = "1"
digit (suc (suc zero)) = "2"
digit (suc (suc (suc zero))) = "3"
digit (suc (suc (suc (suc zero)))) = "4"
digit (suc (suc (suc (suc (suc zero))))) = "5"
digit (suc (suc (suc (suc (suc (suc zero)))))) = "6"
digit (suc (suc (suc (suc (suc (suc (suc zero))))))) = "7"
digit (suc (suc (suc (suc (suc (suc (suc (suc zero)))))))) = "8"
digit (suc (suc (suc (suc (suc (suc (suc (suc (suc n))))))))) = "9"

-- The decimal digits of a number, with a round for each of them at least.
unfoldable pub decimal : ℕ → ℕ → String
unfolding digit
decimal zero n = ""
decimal (suc k) n =
    let rest = decimal k (n / 10) in if ltb n 10 then digit n else append_text rest (digit (n % 10))

-- strconv.Itoa
unfoldable pub itoa : ℤ → String
unfolding decimal
itoa (pos n) = decimal (suc n) n
itoa (negsuc n) = append_text "-" (decimal (suc (suc n)) (suc n))
