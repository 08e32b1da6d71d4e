-- ===== src/Config/Reads.antt =====
-- internal/config/config.go: whatever is read, in whatever order, every problem is reported.
use mathlib.Core.List.{append_assoc, append-nil}
use gophercast.Prelude.{
  ◌≡◌, refl, sym, ap, ◌∙◌, String, Option, none, some, List, [], ◌∷◌, ◌++◌, if◌then◌else◌, str_eq,
  inl, inr, Bool-cases,
}
use gophercast.Prelude.Int.{ℤ}
use gophercast.Text.{codes, parse_int}
use gophercast.Config.Set.{
  Problem, not_set, not_integer, not_duration, Environment, Problems, errf, require, string_or, raw,
  int_of, int, int64_of, int64, duration_of, duration,
}

-- One read of a variable, with its default where it has one.
pub data Read : Type 0 where
  required optional presence : String → Read
  integer : String → ℤ → Read
  integer64 span : String → Read

abbrev pub unless_some : Option ℤ → Problem → Problems
unless_some none p = p ∷ []
unless_some (some n) p = []

module _ (env : Environment) where
  abbrev pub after_read : Read → Problems → Problems
  after_read (required name) ps = (require env name ps).1
  after_read (optional name) ps = (string_or env name "" ps).1
  after_read (presence name) ps = (raw env name ps).1
  after_read (integer name default) ps = (int env name default ps).1
  after_read (integer64 name) ps = (int64 env name ps).1
  after_read (span name) ps = (duration env name ps).1

  unfoldable pub after_reads : List Read → Problems → Problems
  after_reads [] ps = ps
  after_reads (r ∷ rs) ps = after_reads rs (after_read r ps)

  -- What is wrong with one variable.
  abbrev pub if_set : String → Problems → Problems
  if_set name ps = if str_eq (env.value name) "" then [] else ps

  abbrev pub problem_of : Read → Problems
  problem_of (required name) = if str_eq (env.value name) "" then not_set name ∷ [] else []
  problem_of (optional name) = []
  problem_of (presence name) = []
  problem_of (integer name default) =
      if_set name
        (unless_some (parse_int (codes (env.value name))) (not_integer name (env.value name)))
  problem_of (integer64 name) =
      if_set name
        (unless_some (parse_int (codes (env.value name))) (not_integer name (env.value name)))
  problem_of (span name) =
      if_set name
        (unless_some (env.parse_duration (env.value name)) (not_duration name (env.value name)))

  abbrev pub problems_of : List Read → Problems
  problems_of [] = []
  problems_of (r ∷ rs) = problem_of r ++ problems_of rs

  int_of-problem :
      (name v : String) (default : ℤ) (o : Option ℤ) (ps : Problems)
      → (int_of env name v default o ps).1 ≡ ps ++ unless_some o (not_integer name v)
  unfolding errf
  int_of-problem name v default none ps = refl
  int_of-problem name v default (some n) ps = sym (append-nil ps)

  int-problem :
      (name : String) (default : ℤ) (ps : Problems)
      → (int env name default ps).1
        ≡ ps
          ++ if_set name
              (unless_some (parse_int (codes (env.value name))) (not_integer name (env.value name)))
  unfolding int
  int-problem name default ps = elim (Bool-cases (str_eq (env.value name) "")) [
    | inl e ↦ rw e (sym (append-nil ps))
    | inr e ↦
        rw e (int_of-problem name (env.value name) default (parse_int (codes (env.value name))) ps)
  ]

  int64_of-problem :
      (name v : String) (o : Option ℤ) (ps : Problems)
      → (int64_of env name v o ps).1 ≡ ps ++ unless_some o (not_integer name v)
  unfolding errf
  int64_of-problem name v none ps = refl
  int64_of-problem name v (some n) ps = sym (append-nil ps)

  duration_of-problem :
      (name v : String) (o : Option ℤ) (ps : Problems)
      → (duration_of env name v o ps).1 ≡ ps ++ unless_some o (not_duration name v)
  unfolding errf
  duration_of-problem name v none ps = refl
  duration_of-problem name v (some n) ps = sym (append-nil ps)

  int64-problem :
      (name : String) (ps : Problems)
      → (int64 env name ps).1
        ≡ ps
          ++ if_set name
              (unless_some (parse_int (codes (env.value name))) (not_integer name (env.value name)))
  unfolding int64
  int64-problem name ps = elim (Bool-cases (str_eq (env.value name) "")) [
    | inl e ↦ rw e (sym (append-nil ps))
    | inr e ↦ rw e (int64_of-problem name (env.value name) (parse_int (codes (env.value name))) ps)
  ]

  duration-problem :
      (name : String) (ps : Problems)
      → (duration env name ps).1
        ≡ ps
          ++ if_set name (
              unless_some
                (env.parse_duration (env.value name))
                (not_duration name (env.value name)))
  unfolding duration
  duration-problem name ps = elim (Bool-cases (str_eq (env.value name) "")) [
    | inl e ↦ rw e (sym (append-nil ps))
    | inr e ↦
        rw e (duration_of-problem name (env.value name) (env.parse_duration (env.value name)) ps)
  ]

  after_read-problem_of : (r : Read) (ps : Problems) → after_read r ps ≡ ps ++ problem_of r
  unfolding require string_or raw int int64 duration errf
  after_read-problem_of (required name) ps = elim (Bool-cases (str_eq (env.value name) "")) [
    | inl e ↦ rw e
    | inr e ↦ rw e (sym (append-nil ps))
  ]
  after_read-problem_of (optional name) ps = sym (append-nil ps)
  after_read-problem_of (presence name) ps = sym (append-nil ps)
  after_read-problem_of (integer name default) ps = int-problem name default ps
  after_read-problem_of (integer64 name) ps = int64-problem name ps
  after_read-problem_of (span name) ps = duration-problem name ps

  -- The problems that a series of reads reports are exactly those of its variables, in order.
  pub after_reads-problems_of :
      (rs : List Read) (ps : Problems) → after_reads rs ps ≡ ps ++ problems_of rs
  unfolding after_reads
  after_reads-problems_of [] ps = sym (append-nil ps)
  after_reads-problems_of (r ∷ rs) ps =
      after_reads-problems_of rs (after_read r ps)
      ∙ ap (λ x. x ++ problems_of rs) (after_read-problem_of r ps)
      ∙ append_assoc ps (problem_of r) (problems_of rs)
