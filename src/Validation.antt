-- ===== src/Validation.antt =====
-- internal/validation/validation.go. `strings.TrimSpace`, `strings.ToUpper` and the number of
-- bytes of a text belong to Go's library, and come in a record.
use vulcan.Prelude.{ℕ, String, if◌then◌else◌, ltb, str_eq}
use vulcan.Errors.{invalid, Result, ok, err}

pub record Strings : Type 0 where
  pub trim_space : String → String
  pub to_upper : String → String
  pub len : String → ℕ

module _ (strings : Strings) where
  open strings use {trim_space, len}

  unfoldable pub require : String → String → Result (Unit {0})
  require field value =
      if str_eq (trim_space value) "" then err (invalid field "is required") else ok tt

  unfoldable pub max_length : String → String → ℕ → Result (Unit {0})
  max_length field value max =
      if ltb max (len value) then err (invalid field "cannot exceed the limit") else ok tt

  unfoldable pub min_length : String → String → ℕ → Result (Unit {0})
  min_length field value min =
      if ltb (len value) min then err (invalid field "must reach the limit") else ok tt
