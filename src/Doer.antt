-- ===== src/Doer.antt =====
-- doer.go: the client that `RunJob` puts around the one that does the requests.
--
-- The semaphore lets a bounded number of calls run at once, and each call is modelled alone. What
-- the system gives is in `World`. The clock is its too: a pause is a number. The random numbers
-- come from the generator in Random.
-- The prefetched URLs are fetched by goroutines whose results nobody reads, so a call is the list of
-- those that it starts.
pub mod Guard
pub mod Random
pub mod Pauses
pub mod Prefetching
mod Tests
use ideacrawler.Prelude.{
  String, Bool, true, false, not, ◌&&◌, ◌<>◌, List, [], ◌∷◌, any, Option, none, some, Outcome, ok,
  ◌>>=◌, Result, val, err, str_eq, has_suffix, if◌then◌else◌,
}
use ideacrawler.Prelude.Int.{ℤ, pos, ltb_ℤ, int32}
use ideacrawler.Proto.{DomainOpt}
use ideacrawler.Job.{Job, request_cancel}
use ideacrawler.Web.{Web, Response}

pub record World : Type 0 where
  -- `net.Interfaces()`, by their names.
  pub interfaces : Result (List String)
  -- `<-gc.job.randChan`
  pub random : ℤ
  -- `gc.doer.Do(req)`
  pub response : Result Response
  -- `prefetchurl.GetPrefetchURLs` of a body and a URL.
  pub prefetch_urls : String → String → Result (List String)
  -- The error of `http.NewRequest("GET", link, nil)`.
  pub new_request : String → Option String

-- What a call of `Do` comes to: the job, whether the request went to the client, the pause, the
-- prefetches started (and whether they are style sheets), and the result.
pub record Done : Type 0 where
  pub job : Job
  pub asked : Bool
  pub pause : ℤ
  pub prefetches : List (Bool × String)
  pub result : Result Response

-- `afterTime`, in seconds.
abbrev least_delay : DomainOpt → ℤ
least_delay opts = if ltb_ℤ opts.min_delay (pos 1) then pos 1 else opts.min_delay

unfoldable pub after_time : DomainOpt → ℤ → ℤ
after_time opts random =
    if ltb_ℤ (least_delay opts) opts.max_delay then int32 random else least_delay opts

abbrev not_active_message : String → String
not_active_message iface = "Interface '" <> iface <> "' not active."

abbrev pub has_iface : String → List String → Bool
has_iface iface ifs = any (λ name. str_eq name iface) ifs

module _ (world : World) where
  -- `processPrefetchURLs` on the links found: they are started in order, up to the first of which no
  -- request can be made.
  unfoldable pub start_prefetches : List String → List (Bool × String) × Option String
  start_prefetches [] = ([], none)
  start_prefetches (link ∷ links) = elim (world.new_request link) [
    | some e ↦ ([], some e)
    | none ↦
        let (started, e) = start_prefetches links in ((has_suffix link ".css", link) ∷ started, e)
  ]

  with_prefetches :
      Response → List (Bool × String) × Option String → List (Bool × String) × Result Response
  with_prefetches res (started, some e) = (started, err e)
  with_prefetches res (started, none) = (started, val res)

  found_links : Response → Result (List String) → List (Bool × String) × Result Response
  found_links res (err e) = ([], err e)
  found_links res (val links) = with_prefetches res (start_prefetches links)

  -- The body is read and put back.
  prefetch_body : Web → Response → Result String → List (Bool × String) × Result Response
  prefetch_body w res (err e) = ([], err e)
  prefetch_body w res (val body) =
      found_links res (world.prefetch_urls body (w.url_string res.request_url))

  responded : Web → DomainOpt → Result Response → List (Bool × String) × Result Response
  responded w opts (err e) = ([], err e)
  responded w opts (val res) =
      if not opts.chrome && opts.prefetch then prefetch_body w res res.body else ([], val res)

  -- `<-after` comes after the last of the errors.
  pause_for : DomainOpt → Result Response → ℤ
  pause_for opts (err e) = pos 0
  pause_for opts (val res) = after_time opts world.random

  -- From the delay on.
  send : Web → Job → Done
  unfolding pause_for
  send w j =
      let (started, result) = responded w j.opts world.response in
      record {
        job = j;
        asked = true;
        pause = pause_for j.opts result;
        prefetches = started;
        result = result;
      }

  abbrev refused : Job → String → Done
  refused j e = record { job = j; asked = false; pause = pos 0; prefetches = []; result = err e }

  checked : Web → Job → Result (List String) → Outcome Done
  checked w j (err e) = ok (refused j e)
  checked w j (val ifs) =
      if has_iface j.opts.network_iface ifs
      then ok (send w j)
      else (request_cancel j >>= λ j'. ok (refused j' (not_active_message j.opts.network_iface)))

  -- `Do`
  unfoldable pub do_request : Web → Job → Outcome Done
  unfolding checked send pause_for responded prefetch_body found_links with_prefetches
  do_request w j =
      if str_eq j.opts.network_iface "" then ok (send w j) else checked w j world.interfaces
