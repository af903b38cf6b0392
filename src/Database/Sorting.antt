-- ===== src/Database/Sorting.antt =====
-- `process_sort_params` of delfin/db/sqlalchemy/api.py.
use delfin.Prelude.{
  ℕ, zero, suc, ◌-◌, Bool, true, false, ◌&&◌, Option, none, some, List, [], ◌∷◌, ◌++◌, length, elem,
  ltb, if◌then◌else◌,
}
use delfin.Errors.{Result, ok, err, invalid_input}

-- A direction of a request; `unknown` is any text but these two.
pub data Direction : Type 0 where
  asc desc unknown : Direction

-- Python's `if xs:` for a list that may be missing.
abbrev pub given_list : {A : Type 0} → Option (List A) → List A
given_list none = []
given_list (some xs) = xs

abbrev pub is_known : Direction → Bool
is_known asc = true
is_known desc = true
is_known unknown = false

abbrev pub all_known : List Direction → Bool
all_known [] = true
all_known (d ∷ ds) = is_known d && all_known ds

abbrev pub default_of : Direction → List Direction → Direction
default_of default_dir [] = default_dir
default_of default_dir (d ∷ ds) = d

-- `while len(result_dirs) < len(result_keys): result_dirs.append(...)`, by the number of rounds.
abbrev pub padded : ℕ → Direction → List Direction → List Direction
padded zero d ds = ds
padded (suc n) d ds = padded n d (ds ++ d ∷ [])

-- The loop over the default keys.
abbrev pub with_defaults : List ℕ → Direction → List ℕ → List Direction → List ℕ × List Direction
with_defaults [] d keys dirs = (keys, dirs)
with_defaults (k ∷ ks) d keys dirs =
    if elem k keys
    then with_defaults ks d keys dirs
    else with_defaults ks d (keys ++ k ∷ []) (dirs ++ d ∷ [])

abbrev pub finished :
    List ℕ → Direction → List ℕ → List Direction → Result (List ℕ × List Direction)
finished defaults d keys dirs =
    let dirs = padded (length keys - length dirs) d dirs in
    if ltb (length keys) (length dirs)
    then err invalid_input
    else ok (with_defaults defaults d keys dirs)

-- An empty list of directions counts as none: then each key gets the default.
unfoldable pub process_sort_params :
    List ℕ
    → Direction
    → Option (List ℕ)
    → Option (List Direction)
    → Result (List ℕ × List Direction)
process_sort_params defaults default_dir keys dirs =
    let ks = given_list keys in
    let ds = given_list dirs in
    if all_known ds then finished defaults (default_of default_dir ds) ks ds else err invalid_input
