-- ===== src/Config/Set.antt =====
-- internal/config/config.go: reading variables, with the problems collected.
use gophercast.Prelude.{
  String, Bool, true, false, not, Option, none, some, List, [], ◌∷◌, ◌++◌, if◌then◌else◌, str_eq,
}
use gophercast.Prelude.Int.{ℤ, pos}
use gophercast.Text.{codes, parse_int}

-- What `Errf` is told: a required variable that is not set, one with a value that is no integer or no
-- duration, or the text of a check elsewhere.
pub data Problem : Type 0 where
  not_set : String → Problem
  not_integer not_duration : String → String → Problem
  noted : String → Problem

-- The environment, where an unset variable reads as empty, and `time.ParseDuration`.
pub record Environment : Type 0 where
  pub value : String → String
  pub parse_duration : String → Option ℤ

-- `Set`
abbrev pub Problems : Type 0
Problems = List Problem

unfoldable pub errf : Problem → Problems → Problems
errf p ps = ps ++ p ∷ []

module _ (env : Environment) where
  unfoldable pub require : String → Problems → String × Problems
  unfolding errf
  require name ps =
      (env.value name, if str_eq (env.value name) "" then errf (not_set name) ps else ps)

  unfoldable pub string_or : String → String → Problems → String × Problems
  string_or name default ps =
      (if not (str_eq (env.value name) "") then env.value name else default, ps)

  unfoldable pub raw : String → Problems → (String × Bool) × Problems
  raw name ps = ((env.value name, not (str_eq (env.value name) "")), ps)

  abbrev pub int_of : String → String → ℤ → Option ℤ → Problems → ℤ × Problems
  int_of name v default none ps = (default, errf (not_integer name v) ps)
  int_of name v default (some n) ps = (n, ps)

  unfoldable pub int : String → ℤ → Problems → ℤ × Problems
  unfolding errf
  int name default ps =
      if str_eq (env.value name) ""
      then (default, ps)
      else int_of name (env.value name) default (parse_int (codes (env.value name))) ps

  abbrev pub int64_of : String → String → Option ℤ → Problems → (ℤ × Bool) × Problems
  int64_of name v none ps = ((pos 0, true), errf (not_integer name v) ps)
  int64_of name v (some n) ps = ((n, true), ps)

  unfoldable pub int64 : String → Problems → (ℤ × Bool) × Problems
  unfolding errf
  int64 name ps =
      if str_eq (env.value name) ""
      then ((pos 0, false), ps)
      else int64_of name (env.value name) (parse_int (codes (env.value name))) ps

  abbrev pub duration_of : String → String → Option ℤ → Problems → (ℤ × Bool) × Problems
  duration_of name v none ps = ((pos 0, true), errf (not_duration name v) ps)
  duration_of name v (some d) ps = ((d, true), ps)

  unfoldable pub duration : String → Problems → (ℤ × Bool) × Problems
  unfolding errf
  duration name ps =
      if str_eq (env.value name) ""
      then ((pos 0, false), ps)
      else duration_of name (env.value name) (env.parse_duration (env.value name)) ps

-- `Err`: no error, or one with all the problems.
abbrev pub error_of : Problems → Option Problems
error_of [] = none
error_of (p ∷ ps) = some (p ∷ ps)
