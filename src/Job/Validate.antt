-- ===== src/Job/Validate.antt =====
-- src/job/types.rs and src/job/memory.rs: the validation of job options. A cron expression is
-- checked by the parameter `check_cron`, the emptiness of a trimmed text is `is_blank`.
use Prim.Native.Char.{Char, code}
use Prim.Native.String.{String, [], ◌∷◌}
use text.Mathlib.Text.{◌==◌ as str_eq, starts_with}
use lane.Prelude.{
  ℕ, ◌+◌, Bool, true, false, not, ◌&&◌, ◌||◌, Option, none, some, leb, ltb, ◌==◌, is_some,
  if◌then◌else◌,
}
use lane.Error.{Result, ok, err, ◌>>◌, config_error}
use lane.Job.{
  Message, JobEnv, RepeatSchedule, RepeatOptions, DeduplicationOptions, JobRetention, JobOptions,
  every, cron, validate_job_priority, empty_deduplication_id, empty_job_id, end_before_add,
  many_policies, no_bound, zero_interval, zero_limit, reserved_job_id, zero_age, zero_ttl,
  integer_job_id, zero_retention_limit,
}

abbrev pub is_digit : Char → Bool
is_digit c = leb 48 (code c) && leb (code c) 57

abbrev pub all_digits : String → Bool
all_digits [] = true
all_digits (c ∷ s) = is_digit c && all_digits s

abbrev pub starts_positive : String → Bool
starts_positive [] = false
starts_positive (c ∷ s) = leb 49 (code c) && leb (code c) 57 && all_digits s

unfoldable pub is_bullmq_integer_job_id : String → Bool
is_bullmq_integer_job_id [] = false
is_bullmq_integer_job_id (c ∷ s) =
    if code c == 45 then starts_positive s else starts_positive (c ∷ s)

abbrev pub is_zero : Option ℕ → Bool
is_zero none = false
is_zero (some n) = n == 0

abbrev pub one_if : Bool → ℕ
one_if b = if b then 1 else 0

-- How many of the policies for a failed child are on.
abbrev pub flow_failure_policies : {F : Type 0} → JobOptions F → ℕ
flow_failure_policies o =
    one_if o.ignore_dependency_on_failure
    + one_if o.remove_dependency_on_failure
    + one_if o.continue_parent_on_failure
    + one_if o.fail_parent_on_failure

abbrev pub end_of : Option RepeatOptions → Option ℕ
end_of none = none
end_of (some repeat) = repeat.end_at

abbrev pub ended_before : Option ℕ → ℕ → Bool
ended_before none now = false
ended_before (some end) now = ltb end now

module _ (env : JobEnv) where
  open env use {F, V, check_cron, is_blank, text}

  abbrev pub refuse_if : Bool → Message → Result (Unit {0})
  refuse_if true message = err (config_error (text message))
  refuse_if false message = ok tt

  unfoldable pub validate_job_id : String → Result (Unit {0})
  unfolding is_bullmq_integer_job_id
  validate_job_id id =
      refuse_if (is_blank id) empty_job_id
      >> refuse_if (str_eq id "0" || starts_with id "0:") reserved_job_id
      >> refuse_if (is_bullmq_integer_job_id id) integer_job_id

  abbrev pub validate_schedule : RepeatSchedule → Result (Unit {0})
  validate_schedule (every interval) = refuse_if (interval == 0) zero_interval
  validate_schedule (cron expression) = check_cron expression

  unfoldable pub validate_repeat : RepeatOptions → Result (Unit {0})
  validate_repeat repeat =
      validate_schedule repeat.schedule >> refuse_if (is_zero repeat.limit) zero_limit

  unfoldable pub validate_deduplication : DeduplicationOptions → Result (Unit {0})
  validate_deduplication d =
      refuse_if (is_blank d.id) empty_deduplication_id >> refuse_if (is_zero d.ttl) zero_ttl

  unfoldable pub validate_retention : JobRetention → String → Result (Unit {0})
  validate_retention r field =
      refuse_if (not (is_some r.age) && not (is_some r.count)) (no_bound field)
      >> refuse_if (is_zero r.age) (zero_age field)
      >> refuse_if (is_zero r.limit) (zero_retention_limit field)

  abbrev pub validate_some : {A : Type 0} → (A → Result (Unit {0})) → Option A → Result (Unit {0})
  validate_some validate none = ok tt
  validate_some validate (some a) = validate a

  unfoldable pub validate_job_options : JobOptions F → Result (Unit {0})
  unfolding validate_job_id validate_job_priority validate_repeat validate_deduplication
      validate_retention
  validate_job_options o =
      validate_some validate_job_id o.job_id
      >> validate_job_priority text o.priority
      >> validate_some validate_repeat o.repeat
      >> validate_some validate_deduplication o.deduplication
      >> validate_some (λ r. validate_retention r "completion retention") o.completion_retention
      >> validate_some (λ r. validate_retention r "failure retention") o.failure_retention
      >> refuse_if (ltb 1 (flow_failure_policies o)) many_policies

  unfoldable pub validate_job_options_at : JobOptions F → ℕ → Result (Unit {0})
  unfolding validate_job_options
  validate_job_options_at o now =
      validate_job_options o >> refuse_if (ended_before (end_of o.repeat) now) end_before_add
