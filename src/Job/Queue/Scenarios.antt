-- ===== src/Job/Queue/Scenarios.antt =====
-- The theorems on leases, attempts, flows and recovery at concrete queues.
use Prim.Native.String.{String}
use lane.Prelude.{ℕ, ◌≡◌, refl, true, false, none, some, List, [], ◌∷◌, All, length, Option}
use lane.Error.{Result, ok, err, job_lease_conflict}
use lane.Job.{Job, JobSpec, waiting, active, waiting_children, completed}
use lane.Job.Queue.{JobQueue, FlowIndex}
use lane.Job.Queue.Active.{claim_next, renew, delay_active, release_active}
use lane.Job.Queue.Finish.{complete, completed_job, fail_active_job, next_repeat_job}
use lane.Job.Queue.Add.{add}
use lane.Job.Queue.Step.{empty_queue, here, next, claims, adds}
use lane.Job.Queue.Stalled.{is_stalled, recover_stalled_jobs}
use lane.Job.Queue.Children.{Collected, collect}
use lane.Job.Queue.Children.Termination.{collect_total}
use lane.Job.Queue.Stalled.Recovery.{recover_stalled_jobs-All}
use lane.Job.Queue.Kept.Sound.{Any, Sound}
use lane.Job.Queue.Guards.{Refused, wrong_token}
use lane.Job.Queue.Once.{completes, finalized_once}
use lane.Job.Queue.Reachable.{reachable-Sound}
use lane.Job.Queue.Attempts.{IsReleased, Ended, fail_retries}
use lane.Job.Queue.Dedup.Next.{enqueue_deduplicated_next, enqueue_deduplicated_next_flow}
use lane.Job.Queue.Records.{job_deduplication_id}
use lane.Job.Queue.Listing.{list}
use lane.Job.Queue.Flow.Values.{flow_dependency_values}
use lane.Job.Queue.Flow.Pages.{
  JobFlowDependencyPageOptions, processed_kind, flow_dependency_page, flow_dependency_page_items,
}
use lane.Job.Queue.Tests.{plain, job, mail, mail-Sound}

abbrev spec : JobSpec ℕ String
spec = record { name = "send"; payload = "{}"; options = (job "a" 5 waiting 0 none none).options }

abbrev added : JobQueue ℕ String
added = (add plain "mail" "u1" spec 7 empty_queue).1

reachable-Sound_example : Sound Any (claim_next plain "w" "t" 5 8 added).1.jobs
reachable-Sound_example =
    reachable-Sound plain (next (next here (adds "mail" "u1" spec 7) tt) (claims "w" "t" 5 8) tt)

abbrev active_job : Job ℕ String
active_job = job "c" 1 active 0 (some "w") (some 9)

abbrev sent : JobQueue ℕ String
sent = (complete plain "u" "c" "w" "sent" 8 mail).1

sent_ok :
    (complete plain "u" "c" "w" "sent" 8 mail).0 ≡ ok (completed_job plain "sent" 8 active_job)
unfolding complete enqueue_deduplicated_next job_deduplication_id enqueue_deduplicated_next_flow
    next_repeat_job
sent_ok = refl

abbrev again : JobQueue ℕ String
again = (claim_next plain "w2" "t" 5 20 sent).1

finalized_once_example :
    Refused (complete plain "u" "c" "w" "twice" 21 again) again
    × Refused (fail_active_job plain "c" "w" "late" 21 true again) again
    × Refused (delay_active plain "c" "w" 5 21 again) again
    × Refused (release_active plain "c" "w" 21 again) again
    × Refused (renew plain "c" "w" 5 21 again) again
finalized_once_example =
    finalized_once plain "c" "w" mail-Sound
      (completes "u" "sent" 8 (completed_job plain "sent" 8 active_job) sent_ok)
      (next here (claims "w2" "t" 5 20) refl) "u" "late" "twice" 5 21 true

wrong_token_example :
    let refused : Result (Job ℕ String) × JobQueue ℕ String =
      (err (job_lease_conflict "refused"), mail) in
    (complete plain "u" "c" "thief" "sent" 20 mail ≡ refused)
    × (fail_active_job plain "c" "thief" "broken" 20 true mail ≡ refused)
    × (delay_active plain "c" "thief" 5 20 mail ≡ refused)
    × (release_active plain "c" "thief" 20 mail ≡ refused)
    × (renew plain "c" "thief" 5 20 mail ≡ refused)
wrong_token_example =
    wrong_token plain "u" "c" "thief" "broken" "sent" 5 20 true mail active_job refl refl refl

recover_stalled_jobs-All_example :
    All (λ r. is_stalled 10 r.1 ≡ false) (recover_stalled_jobs plain 10 mail).1.jobs
recover_stalled_jobs-All_example = recover_stalled_jobs-All plain 10 mail mail-Sound

abbrev parent : Job ℕ String
parent = record (job "p" 1 waiting_children 0 none none) { child_ids = "a" ∷ "gone" ∷ [] }

abbrev flow : JobQueue ℕ String
flow = record mail { jobs = ("p", parent) ∷ ("a", job "a" 5 completed 0 none none) ∷ [] }

abbrev circle : List (String × Job ℕ String)
circle = ("p", parent) ∷ ("a", record (job "a" 1 waiting 0 none none) { child_ids = "p" ∷ [] }) ∷ []

collect_total_example :
    (r : Collected) × (collect (length circle) circle ("a" ∷ []) ([], []) ≡ some r)
collect_total_example = collect_total circle ("a" ∷ [])

fail_retries_example :
    let done = fail_active_job plain "c" "w" "broken" 8 true mail in
    (r : Job ℕ String) × (done.0 ≡ ok r)
    × IsReleased plain "broken" active_job r
    × Ended plain true "c" 8 active_job r done.1
fail_retries_example = fail_retries plain "c" "w" "broken" 8 true mail active_job refl refl refl

abbrev first_page : JobFlowDependencyPageOptions
first_page = record { kind = processed_kind; cursor = 0; count = 1 }

abbrev done_children : Option (FlowIndex String)
done_children =
    some record { processed = ("gone", "sent") ∷ ("late", "sent") ∷ []; ignored = []; failed = [] }

-- The first of two pages, and the values of the same children.
two_pages : (flow_dependency_page parent flow.jobs done_children first_page).next_cursor ≡ 1
unfolding flow_dependency_page flow_dependency_page_items
two_pages = refl

two_values :
    (flow_dependency_values parent flow.jobs done_children).processed
    ≡ ("gone", "sent") ∷ ("late", "sent") ∷ []
unfolding flow_dependency_values
two_values = refl

two_states :
    (list
      (record {
        state = some waiting_children;
        states = [];
        offset = 0;
        limit = 1;
        ascending = true;
      })
      flow).jobs
    ≡ parent ∷ []
unfolding list
two_states = refl
