-- ===== src/Config.antt =====
-- The configuration, as cmd/service/main.go reads it.
pub mod Env
pub mod Required
use eth_tracker.Prelude.{
  ℕ, zero, suc, ℤ, pos, negsuc, ◌≡◌, refl, sym, ap, ◌∙◌, Bool, true, false, Bool-cases, inl, inr,
  String, List, [], ◌∷◌, ◌==◌, string_eq, if◌then◌else◌,
}
use eth_tracker.Result.{Result, ok, panic, ok_injective}

abbrev pub is_zero : ℤ → Bool
is_zero (pos zero) = true
is_zero (pos (suc n)) = false
is_zero (negsuc n) = false

abbrev pub is_empty : List String → Bool
is_empty [] = true
is_empty (x ∷ xs) = false

-- The loaded `koanf.Koanf`, with what koanf documents of the calls that must find a value: they panic
-- if the key is not set or has the default value, as which a missing key reads.
pub record Settings : Type 0 where
  pub string : String → String
  pub strings : String → List String
  pub int : String → ℤ
  pub must_string : String → Result String
  pub must_strings : String → Result (List String)
  pub must_int : String → Result ℤ
  pub must_string_lem :
      (key : String) → must_string key ≡ (if string key == "" then panic else ok (string key))
  pub must_strings_lem :
      (key : String)
      → must_strings key ≡ (if is_empty (strings key) then panic else ok (strings key))
  pub must_int_lem :
      (key : String) → must_int key ≡ (if is_zero (int key) then panic else ok (int key))

guarded :
    {A : Type 0} (b : Bool) (x y : A) → (if b then panic else ok x) ≡ ok y → (b ≡ false) × (x ≡ y)
guarded true x y h = cc h
guarded false x y h = (refl, ok_injective x y h)

module _ (k : Settings) where
  pub must_string-found :
      (key value : String) → k.must_string key ≡ ok value → (value == "") ≡ false
  must_string-found key value h =
      let (some_text, same) = guarded _ _ _ (sym (k.must_string_lem key) ∙ h) in
      ap (λ v. v == "") (sym same) ∙ some_text

  pub must_strings-found :
      (key : String) (values : List String)
      → k.must_strings key ≡ ok values
      → is_empty values ≡ false
  must_strings-found key values h =
      let (some_values, same) = guarded _ _ _ (sym (k.must_strings_lem key) ∙ h) in
      ap is_empty (sym same) ∙ some_values

  pub must_int-found :
      (key : String) (value : ℤ) → k.must_int key ≡ ok value → is_zero value ≡ false
  must_int-found key value h =
      let (no_zero, same) = guarded _ _ _ (sym (k.must_int_lem key) ∙ h) in
      ap is_zero (sym same) ∙ no_zero
