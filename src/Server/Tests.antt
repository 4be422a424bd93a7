-- ===== src/Server/Tests.antt =====
-- The theorems on worker.go at a server with one job.
use ideacrawler.Prelude.{
  String, true, false, List, [], ◌∷◌, none, some, ◌≡◌, ◌⊎◌, refl, val, err, Result, if◌then◌else◌,
  str_eq, str_eq_iff, Bool-cases, inl, inr, arith,
}
use ideacrawler.Prelude.Dict.{lookup}
use ideacrawler.Prelude.Chan.{make}
use ideacrawler.Proto.{JobId, PageRequest, PageHtml, get, zero_opt}
use ideacrawler.Job.{Regexp}
use ideacrawler.Samples.{site, start_job}
use ideacrawler.Server.{
  Server, NewJob, new_job_event, new_sub_event, standalone, new_server, add_new_job, manage,
}
use ideacrawler.Server.Registry.{Admits, Refuses, WellFormed, add_new_job-Admits}
use ideacrawler.Server.Refinement.{Shows}
use ideacrawler.Server.Refinement.Runs.{Step, round, crawl, run, replay, run-new_server_refines}
use ideacrawler.Server.Rounds
use ideacrawler.Server.Rounds.{Reach-WellFormed, begin}
use ideacrawler.Server.Rpc.{Recv, cancel_job}
use ideacrawler.RunJob.{start_canceller}
use ideacrawler.Server.{add_validated, validate, domain_name_from_url, compile_option}
use ideacrawler.Prelude.Dict.{insert}
use ideacrawler.Server.Rpc.Cancel.{Cancels, cancel_job-Cancels}
use ideacrawler.Server.Rpc.Streams.{Client, add_domain_and_listen}
use ideacrawler.Server.Rpc.Streams.{get_analyzed_urls}
use ideacrawler.Server.Rpc.Streams.Analyzed.{Analyzes, get_analyzed_urls-Analyzes}
use ideacrawler.Server.Rpc.Streams.Listen.{Listens, add_domain_and_listen-Listens}

-- "(" does not compile.
abbrev compile : String → Result Regexp
compile s = if str_eq s "(" then err "missing )" else val (λ t. str_eq s t)

abbrev empty : Server
empty = new_server "worker" standalone

abbrev wanted : NewJob
wanted = record {
  opts = record zero_opt { seed_url = "/"; callback_url_regexp = "/a" };
  subscribe = true;
}

add_new_job-Admits_example :
    Admits site compile "id" wanted empty (add_new_job site compile "id" wanted empty)
    ⊎ Refuses site compile wanted empty (add_new_job site compile "id" wanted empty)
add_new_job-Admits_example = add_new_job-Admits site compile "id" wanted empty

-- A server that crawls `start_job`.
abbrev one_job : Server
one_job = record empty { jobs = ("job", tt) ∷ []; store = ("job", start_job) ∷ [] }

Reach-WellFormed_example : WellFormed (manage site compile (new_job_event "id" wanted) empty).0
Reach-WellFormed_example =
    Reach-WellFormed site compile {id = "worker"} {mode = standalone}
      (Rounds.round (new_job_event "id" wanted) begin)

abbrev job_id : JobId
job_id = record { id = "job" }

abbrev ask : String → PageRequest
ask url = record {
  job_id = some job_id;
  reqtype = get;
  url = url;
  js = "";
  no_callback = false;
  meta_str = "";
}

-- In between, the job empties its request channel.
abbrev served : List Recv → Server → Server
served rs s = one_job

one_job-WellFormed : WellFormed one_job
unfolding lookup
one_job-WellFormed k reg = elim (Bool-cases (str_eq "job" k)) [
  | inl e ↦ (start_job, rw e refl, (str_eq_iff "job" k).0 e)
  | inr e ↦ ground (arith, e, reg)
]

cancel_job-Cancels_example :
    Cancels start_canceller job_id one_job (cancel_job start_canceller (some job_id) one_job)
cancel_job-Cancels_example = cancel_job-Cancels start_canceller job_id one_job one_job-WellFormed

-- A client that goes away after two messages.
abbrev leaver : Client PageHtml
leaver (x ∷ y ∷ z) = some "gone"
leaver (x ∷ []) = none
leaver [] = none

add_domain_and_listen-Listens_example :
    Listens site compile
      (λ s. s)
      leaver
      []
      "id"
      wanted.opts
      empty
      (add_domain_and_listen site compile (λ s. s) leaver [] "id" wanted.opts empty)
unfolding lookup insert add_new_job add_validated validate domain_name_from_url compile_option
add_domain_and_listen-Listens_example =
    add_domain_and_listen-Listens site compile (λ s. s) leaver [] "id" wanted.opts empty
      (λ j stored. (_, make 3, refl, refl, refl, refl))

get_analyzed_urls-Analyzes_example :
    Analyzes
      (λ s. s)
      (λ lists. none)
      []
      job_id
      one_job
      (get_analyzed_urls (λ s. s) (λ lists. none) [] (some job_id) one_job)
get_analyzed_urls-Analyzes_example =
    get_analyzed_urls-Analyzes (λ s. s) (λ lists. none) [] job_id one_job one_job-WellFormed
      (λ t listening. listening)

-- A job is entered, finishes, and is found once more before a round drops it.
abbrev steps : List (Step site compile)
steps =
    round (new_job_event "id" wanted)
    ∷ crawl "id" (λ j. record j { done_closed = true }) (λ j. refl)
    ∷ round (new_sub_event (record { id = "id" }))
    ∷ round (new_sub_event (record { id = "id" }))
    ∷ []

run-new_server_refines_example :
    Shows (run site compile steps empty).0 (replay site compile steps (λ k. none)).0
    × ((run site compile steps empty).1 ≡ (replay site compile steps (λ k. none)).1)
run-new_server_refines_example = run-new_server_refines site compile steps "worker" standalone
