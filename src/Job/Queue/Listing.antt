-- ===== src/Job/Queue/Listing.antt =====
-- src/job/memory.rs: `list`, `counts_by_state` and `counts_per_priority`, with their options and
-- answers from src/job/types.rs. A sum that saturates at `usize::MAX` is cut to a length all the
-- same, so that it is written as a plain sum here.
use lane.Job.{
  Job, JobState, waiting, delayed, active, waiting_children, completed, failed, same_state,
}
use lane.Prelude.Sort.{sort_by}
use mathlib.Core.List.{reverse}
use lane.Job.Queue.{JobQueue, values, count_state}
use lane.Job.Queue.Remove.{lists_before, compare_list_order}
use lane.Prelude.{
  ℕ, Bool, Option, none, some, List, [], ◌∷◌, map, false, if◌then◌else◌, ◌==◌, ◌++◌, ◌||◌, ◌&&◌,
  filter, length, min, ◌+◌, ◌-◌, take, drop,
}

pub record JobListOptions : Type 0 where
  pub state : Option JobState
  pub states : List JobState
  pub offset : ℕ
  pub limit : ℕ
  pub ascending : Bool

pub record JobListPage (F V : Type 0) : Type 0 where
  pub jobs : List (Job F V)
  pub total : ℕ
  pub offset : ℕ
  pub limit : ℕ

pub record JobStateCount : Type 0 where
  pub state : JobState
  pub count : ℕ

pub record JobPriorityCount : Type 0 where
  pub priority : ℕ
  pub count : ℕ

-- `JobState::ALL`
abbrev all_states : List JobState
all_states = waiting ∷ delayed ∷ active ∷ waiting_children ∷ completed ∷ failed ∷ []

abbrev contains : {A : Type 0} → (A → A → Bool) → A → List A → Bool
contains same a [] = false
contains same a (b ∷ rest) = same b a || contains same a rest

-- The loop that keeps the first of equal items, in their order.
abbrev unique : {A : Type 0} → (A → A → Bool) → List A → List A → List A
unique same [] found = found
unique same (a ∷ rest) found =
    unique same rest (if contains same a found then found else found ++ a ∷ [])

abbrev or_all : Option JobState → List JobState
or_all none = all_states
or_all (some state) = state ∷ []

abbrev selected : Option JobState → List JobState → List JobState
selected state [] = or_all state
selected state (s ∷ states) = unique same_state (s ∷ states) []

unfoldable selected_states : JobListOptions → List JobState
selected_states options = selected options.state options.states

abbrev states_or_all : List JobState → List JobState
states_or_all [] = all_states
states_or_all (s ∷ states) = s ∷ states

unfoldable unique_states : List JobState → List JobState
unique_states states = unique same_state (states_or_all states) []

unfoldable unique_priorities : List ℕ → List ℕ
unique_priorities priorities = unique (λ a b. a == b) priorities []

module _ {F V : Type 0} where
  abbrev listed_jobs : JobListOptions → JobQueue F V → List (Job F V)
  listed_jobs options q =
      let jobs =
        sort_by lists_before (
          filter (λ job. contains same_state job.state (selected_states options))
            (values q.jobs)) in
      if options.ascending then jobs else reverse jobs

  unfoldable pub list : JobListOptions → JobQueue F V → JobListPage F V
  unfolding selected_states compare_list_order sort_by
  list options q =
      let jobs = listed_jobs options q in
      let total = length jobs in
      let start = min options.offset total in
      let end = min (start + options.limit) total in
      record {
        jobs = if options.limit == 0 then [] else take (end - start) (drop start jobs);
        total = total;
        offset = options.offset;
        limit = options.limit;
      }

  unfoldable pub counts_by_state : List JobState → JobQueue F V → List JobStateCount
  unfolding unique_states count_state
  counts_by_state states q =
      map (λ (s : JobState). record { state = s; count = count_state s q.jobs })
        (unique_states states)

  abbrev waits_with : ℕ → Job F V → Bool
  waits_with priority job = same_state job.state waiting && job.priority == priority

  unfoldable pub counts_per_priority : List ℕ → JobQueue F V → List JobPriorityCount
  unfolding unique_priorities
  counts_per_priority priorities q =
      map
        (λ (p : ℕ). record { priority = p; count = length (filter (waits_with p) (values q.jobs)) })
        (unique_priorities priorities)
