-- ===== src/Job/Queue/Tests.antt =====
-- A queue with a waiting and an active job, and the theorems on claims and leases at it.
use Prim.Native.String.{String}
use text.Mathlib.Text.{◌==◌ as str_eq}
use lane.Float.Whole.{whole}
use lane.Prelude.{
  leb, if◌then◌else◌, arith, ◌-◌, take, drop, length, ℕ, ◌+◌, ◌≡◌, refl, sym, ap, false, Option,
  none, some, [], ◌∷◌, List, true,
}
use lane.Prelude.Sort.{sort_by, pop_first}
use lane.Error.{ok}
use lane.Job.{JobLogEntry, Job, JobEnv, JobState, waiting, delayed, active}
use lane.Job.Queue.{JobQueue, promote_due}
use lane.Job.Queue.Active.{claim_next, selected_id}
use lane.Job.Queue.Claim.{Claimed, claim_next-Claimed}
use lane.Job.Queue.Kept.Sound.{Any, Sound, Entry}
use lane.Job.Queue.Page.{
  pos, negsuc, redis_range, redis_range_before_first, log_page, log_page_between,
}

abbrev value_of : {A : Type 0} → A → Option A → A
value_of a none = a
value_of a (some b) = b

pub plain_from_std-eq : (d e : ℕ) → some d ≡ some e → e ≡ d
plain_from_std-eq d e h = sym (ap (value_of d) h)

pub plain_checked_add-eq : (t d s : ℕ) → some (t + d) ≡ some s → s ≡ t + d
plain_checked_add-eq t d s h = sym (ap (value_of s) h)

abbrev minus : ℕ → ℕ → Option ℕ
minus t d = if leb d t then some (t - d) else none

pub minus-eq : (t d s : ℕ) → minus t d ≡ some s → t ≡ s + d
minus-eq t d s h = ground arith

abbrev pub plain : JobEnv
plain = record {
  float = whole;
  V = String;
  from_std = some;
  checked_add = λ t d. some (t + d);
  from_std-eq = plain_from_std-eq;
  checked_add-eq = plain_checked_add-eq;
  checked_sub = minus;
  checked_sub-eq = minus-eq;
  check_cron = λ c. ok tt;
  is_blank = λ s. str_eq s "";
  next_cron = λ c t. ok (some (t + 5));
  series = λ queue name. name;
  number = λ n. "number";
  null = "null";
  timestamp_millis = λ t. "time";
  string = λ s. s;
  text = λ m. "refused";
}

abbrev pub job : String → ℕ → JobState → ℕ → Option String → Option ℕ → Job ℕ String
job id priority state scheduled_at owner lease = record {
  id = id;
  queue = "mail";
  name = "send";
  payload = "{}";
  options = record {
    job_id = none;
    priority = priority;
    lifo = false;
    delay = none;
    retry_policy = record { max_retries = 1; initial_delay = 0; max_delay = 0; multiplier = 1 };
    timeout = none;
    remove_on_complete = false;
    completion_retention = none;
    remove_on_fail = false;
    failure_retention = none;
    max_stalled_count = 1;
    repeat = none;
    deduplication = none;
    ignore_dependency_on_failure = false;
    remove_dependency_on_failure = false;
    continue_parent_on_failure = false;
    fail_parent_on_failure = false;
  };
  priority = priority;
  state = state;
  attempts_made = 0;
  stalled_count = 0;
  created_at = 0;
  scheduled_at = scheduled_at;
  enqueued_seq = 1;
  processed_at = none;
  finished_at = none;
  worker_id = owner;
  lock_token = owner;
  lease_expires_at = lease;
  deferred_failure = none;
  failed_reason = none;
  stacktrace = [];
  return_value = none;
  progress = none;
  logs = [];
  parent_id = none;
  child_ids = [];
  repeat_key = none;
  repeat_count = 0;
  deduplication_expires_at = none;
}

abbrev pub mail : JobQueue ℕ String
mail = record {
  paused = false;
  sequence = 1;
  event_sequence = 0;
  events = [];
  jobs =
      ("a", job "a" 5 waiting 0 none none)
      ∷ ("b", job "b" 3 delayed 10 none none)
      ∷ ("c", job "c" 1 active 0 (some "w") (some 9))
      ∷ [];
  flow_dependencies = [];
  deduplication_next = [];
  deduplication_next_flows = [];
  released_deduplication_owners = [];
}

-- The delayed job is due, and is claimed before the one of a higher priority value.
claims_due : selected_id (promote_due 20 mail) ≡ some "b"
unfolding promote_due sort_by selected_id pop_first
claims_due = refl

pub mail-Sound : Sound Any mail.jobs
mail-Sound = record {
  entries = (entry_a, (entry_b, (entry_c, tt)));
  distinct = (refl, (refl, (refl, tt)));
}
  where
    entry_a : Entry Any ("a", job "a" 5 waiting 0 none none)
    entry_a = record {
      key = refl;
      leased = record { token = refl; lease = refl; worker = refl };
      also = tt;
    }

    entry_b : Entry Any ("b", job "b" 3 delayed 10 none none)
    entry_b = record {
      key = refl;
      leased = record { token = refl; lease = refl; worker = refl };
      also = tt;
    }

    entry_c : Entry Any ("c", job "c" 1 active 0 (some "w") (some 9))
    entry_c = record {
      key = refl;
      leased = record { token = refl; lease = refl; worker = refl };
      also = tt;
    }

claim_next-Claimed_example :
    Claimed plain "w2" "t" 5 20 (promote_due 20 mail) (claim_next plain "w2" "t" 5 20 mail)
claim_next-Claimed_example = claim_next-Claimed plain "w2" "t" 5 20 mail refl mail-Sound

abbrev one_line : List JobLogEntry
one_line = record { timestamp = 1; line = "one" } ∷ []

redis_range_before_first_example :
    redis_range (record { timestamp = 0; line = "zero" } ∷ one_line) (pos 0) (negsuc 2)
    ≡ record { timestamp = 0; line = "zero" } ∷ []
redis_range_before_first_example =
    redis_range_before_first (record { timestamp = 0; line = "zero" }) one_line 2 (omega arith)

abbrev lines : List JobLogEntry
lines = record { timestamp = 1; line = "one" } ∷ record { timestamp = 2; line = "one_line" } ∷ []

latest_line :
    (log_page lines (pos 0) (pos 0) false).0 ≡ record { timestamp = 2; line = "one_line" } ∷ []
unfolding log_page
latest_line = refl

log_page_between_example :
    log_page lines (pos 1) (pos 4) true ≡ (take (4 + 1 - 1) (drop 1 lines), length lines)
log_page_between_example = log_page_between lines 1 4
