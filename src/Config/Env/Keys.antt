-- ===== src/Config/Env/Keys.antt =====
-- The keys of the settings that variables of the environment set.
use mathlib.Core.List.{map-append}
use eth_tracker.Prelude.{
  ℕ, ◌≡◌, refl, ap, ◌∙◌, Bool, true, not, ◌&&◌, [], ◌∷◌, ◌++◌, map, drop, length, ◌==◌, ==_refl,
  nat_eq, arith,
}
use eth_tracker.Config.Env.{
  Text, env_prefix, underscore, dot, starts_with, trim_prefix, replace_nested, env_key,
}

starts_with-append : (p cs : Text) → starts_with p (p ++ cs) ≡ true
starts_with-append [] cs = refl
starts_with-append (x ∷ p) cs = ground (arith, ==_refl x, starts_with-append p cs)

drop-append : (p cs : Text) → drop (length p) (p ++ cs) ≡ cs
drop-append [] cs = refl
drop-append (x ∷ p) cs = drop-append p cs

trim_prefix-append : (p cs : Text) → trim_prefix p (p ++ cs) ≡ cs
trim_prefix-append p cs = rw (starts_with-append p cs) (drop-append p cs)

-- No two underscores in a row, and none at the end.
abbrev pub is_plain : Text → Bool
is_plain [] = true
is_plain (c ∷ []) = not (c == underscore)
is_plain (c ∷ d ∷ cs) = not (c == underscore && d == underscore) && is_plain (d ∷ cs)

is_plain-map :
    (to_lower : ℕ → ℕ) (cs : Text)
    → ((c : ℕ) → (to_lower c == underscore) ≡ (c == underscore))
    → is_plain (map to_lower cs) ≡ is_plain cs
is_plain-map to_lower [] same = refl
is_plain-map to_lower (c ∷ []) same = ap not (same c)
is_plain-map to_lower (c ∷ d ∷ cs) same =
    ground (arith, same c, same d, is_plain-map to_lower (d ∷ cs) same)

replace_nested-append :
    (section key : Text)
    → is_plain section ≡ true
    → replace_nested (section ++ underscore ∷ underscore ∷ key)
      ≡ section ++ dot ∷ replace_nested key
unfolding replace_nested
replace_nested-append [] key plain = refl
replace_nested-append (c ∷ []) key plain = ground arith
replace_nested-append (c ∷ d ∷ cs) key plain = ground (arith, replace_nested-append (d ∷ cs) key)

-- If lower case keeps underscores, and makes no others: a variable that has the prefix, a section
-- without two underscores in a row or one at its end, two underscores and a name sets the key of the
-- section in lower case, a dot, and the name in lower case with a dot for each further two underscores.
pub env_key-nested :
    (to_lower : ℕ → ℕ) (section key : Text)
    → ((c : ℕ) → (to_lower c == underscore) ≡ (c == underscore))
    → is_plain section ≡ true
    → env_key to_lower (env_prefix ++ section ++ underscore ∷ underscore ∷ key)
      ≡ map to_lower section ++ dot ∷ replace_nested (map to_lower key)
env_key-nested to_lower section key same plain =
    let kept : to_lower underscore ≡ underscore = (nat_eq.beq_iff _ _).0 (same underscore) in
    ap (λ cs. replace_nested (map to_lower cs)) (trim_prefix-append env_prefix _)
    ∙ ap replace_nested (map-append to_lower section (underscore ∷ underscore ∷ key))
    ∙ ap (λ u. replace_nested (map to_lower section ++ u ∷ u ∷ map to_lower key)) kept
    ∙ replace_nested-append (map to_lower section) (map to_lower key)
        (is_plain-map to_lower section same ∙ plain)
