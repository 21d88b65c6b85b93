-- ===== src/Config/Filepath.antt =====
-- What config_file.go uses of packages path/filepath and strings, on a system where the separator is
-- `/`.
pub mod Child
pub mod Suffix
use Prim.Native.Char.{Char, code}
use Prim.Native.String.{◌++◌ as append}
use scaffold_go.Base.{
  ℕ, zero, suc, ◌-◌, String, Bool, true, false, ◌||◌, List, [], ◌∷◌, reverse, ◌==◌, str_eq,
  if◌then◌else◌,
}

-- `strings.ContainsRune(s, '/')`
unfoldable pub has_separator : String → Bool
has_separator String.[] = false
has_separator (String.◌∷◌ c s) = code c == b'/' || has_separator s

-- `c` before the first piece.
abbrev pub onto_first : Char → List String → List String
onto_first c [] = (String.◌∷◌ c String.[]) ∷ []
onto_first c (w ∷ ws) = (String.◌∷◌ c w) ∷ ws

-- The pieces between the separators.
unfoldable pub split : String → List String
split String.[] = String.[] ∷ []
split (String.◌∷◌ c s) =
    let rest = split s in if code c == b'/' then String.[] ∷ rest else onto_first c rest

abbrev pub is_rooted : String → Bool
is_rooted String.[] = false
is_rooted (String.◌∷◌ c s) = code c == b'/'

-- What Clean does at `..`, of the elements that it has kept, last first.
abbrev pub parent : Bool → List String → List String
parent true [] = []
parent false [] = ".." ∷ []
parent rooted (w ∷ ws) = if str_eq w ".." then ".." ∷ w ∷ ws else ws

-- One element of the path.
abbrev pub visit : Bool → List String → String → List String
visit rooted kept w =
    if str_eq w "" || str_eq w "."
    then kept
    else if str_eq w ".."
    then parent rooted kept
    else w ∷ kept

abbrev pub visit_each : Bool → List String → List String → List String
visit_each rooted kept [] = kept
visit_each rooted kept (w ∷ ws) = visit_each rooted (visit rooted kept w) ws

-- The elements to which a path comes down.
unfoldable pub elements : String → List String
unfolding split
elements path = reverse (visit_each (is_rooted path) [] (split path))

abbrev pub join_elements : List String → String
join_elements [] = ""
join_elements (w ∷ []) = w
join_elements (w ∷ v ∷ ws) = append w (append "/" (join_elements (v ∷ ws)))

-- The path of these elements.
abbrev pub render : Bool → List String → String
render true ws = append "/" (join_elements ws)
render false [] = "."
render false (w ∷ ws) = join_elements (w ∷ ws)

-- `filepath.Clean(path)`
unfoldable pub clean : String → String
unfolding elements
clean path = render (is_rooted path) (elements path)

-- `filepath.Join(dir, key)`, which passes over an empty element.
unfoldable pub join_path : String → String → String
unfolding clean
join_path dir key =
    if str_eq dir ""
    then if str_eq key "" then "" else clean key
    else clean (append dir (append "/" key))

-- `strings.HasSuffix(s, t)`
unfoldable pub ends_with : String → String → Bool
ends_with String.[] t = str_eq String.[] t
ends_with (String.◌∷◌ c s) t = str_eq (String.◌∷◌ c s) t || ends_with s t

abbrev pub count : String → ℕ
count String.[] = 0
count (String.◌∷◌ c s) = suc (count s)

abbrev pub take : ℕ → String → String
take zero s = String.[]
take (suc n) String.[] = String.[]
take (suc n) (String.◌∷◌ c s) = String.◌∷◌ c (take n s)

-- `s[:len(s)-n]`, where the last n characters are of one byte each.
abbrev pub drop_last : ℕ → String → String
drop_last n s = take (count s - n) s
