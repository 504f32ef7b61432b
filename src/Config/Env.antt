-- ===== src/Config/Env.antt =====
-- internal/util/init.go: the logger's settings, and the configuration from a file and from the
-- environment. A text is the list of its characters.
pub mod Keys
pub mod Values
use eth_tracker.Prelude.{
  ℕ, Bool, true, false, ◌&&◌, String, List, [], ◌∷◌, contains, drop, length, map, ◌==◌, nat_eq,
  string_eq, if◌then◌else◌,
}
use eth_tracker.Prelude.Codes.{codes}
use eth_tracker.Prelude.Split.{split_on}
use eth_tracker.Exec.{Exec, ◌>>=◌, ◌>>◌, or_exit}

pub data Level : Type 0 where
  level_info level_debug : Level

pub data Format : Type 0 where
  logfmt human : Format

-- By the values of the variables DEBUG and DEV.
abbrev pub init_logger : String → String → Level × Format
init_logger debug dev =
    let level = if debug == "" then level_info else level_debug in
    if dev == "" then (level, logfmt) else (level_debug, human)

abbrev pub Text : Type 0
Text = List ℕ

-- "TRACKER_"
abbrev pub env_prefix : Text
env_prefix = codes "TRACKER_"

-- A space between the values of an array, two underscores in a nested key, and the dot of koanf.
abbrev pub env_separator : ℕ
env_separator = 32

abbrev pub underscore : ℕ
underscore = 95

abbrev pub dot : ℕ
dot = 46

abbrev pub starts_with : Text → Text → Bool
starts_with [] cs = true
starts_with (p ∷ prefix) [] = false
starts_with (p ∷ prefix) (c ∷ cs) = p == c && starts_with prefix cs

-- strings.TrimPrefix
abbrev pub trim_prefix : Text → Text → Text
trim_prefix prefix cs = if starts_with prefix cs then drop (length prefix) cs else cs

-- strings.ReplaceAll(cs, "__", ".")
unfoldable pub replace_nested : Text → Text
replace_nested [] = []
replace_nested (c ∷ []) = c ∷ []
replace_nested (c ∷ d ∷ cs) =
    let replaced = replace_nested cs in
    let kept = replace_nested (d ∷ cs) in
    if c == underscore && d == underscore then dot ∷ replaced else c ∷ kept

-- strings.Split(cs, " ")
abbrev pub split : Text → List Text
split cs = split_on env_separator cs

-- The values that the callback returns: a text, or an array of texts.
pub data EnvValue : Type 0 where
  single : Text → EnvValue
  array : List Text → EnvValue

-- `to_lower` is what strings.ToLower does to a character.
abbrev pub env_key : (ℕ → ℕ) → Text → Text
env_key to_lower s = replace_nested (map to_lower (trim_prefix env_prefix s))

abbrev pub env_value : Text → EnvValue
env_value v = if contains v env_separator then array (split v) else single v

-- What is called of koanf: `Load` of the file, and `Load` of the variables with the callback.
pub record Loader (S : Type 0) : Type 0 where
  pub load_file : String → Exec S (Unit {0})
  pub load_env : (Text → Text → Text × EnvValue) → Exec S (Unit {0})

unfoldable pub init_config : {S : Type 0} → Loader S → (ℕ → ℕ) → String → Exec S (Unit {0})
init_config ko to_lower conf_file_path = do
  or_exit (ko.load_file conf_file_path)
  or_exit (ko.load_env (λ s v. (env_key to_lower s, env_value v)))
