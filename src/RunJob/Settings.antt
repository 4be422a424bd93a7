-- ===== src/RunJob/Settings.antt =====
-- The fetcher that `RunJob` of job.go sets up: what the options of the job make of it.
use ideacrawler.Prelude.{
  String, true, Option, none, some, ◌≡◌, ◌⊎◌, inl, inr, refl, str_eq, Bool-cases, if◌then◌else◌,
}
use ideacrawler.Prelude.Int.{ℤ, pos, eqb_ℤ, eqb_ℤ_iff, ltb_ℤ, ◌<ℤ◌, ◌≤ℤ◌, below_of, not_below_of}
use mathlib.Core.List.{Memᴰ}
use ideacrawler.Proto.{DomainOpt}
use ideacrawler.Login.{Client}
use ideacrawler.RunJob.{worker_idle_ttl}
use ideacrawler.RunJob.Setup.{
  Fetcher, fetch_error_handler, fetch_http_get_handler, fetch_http_head_handler, make_fetcher,
}

-- The idle time, in seconds, that a job's `max_idle_time` asks for.
abbrev pub IdleTime : ℤ → ℤ → Type 0
IdleTime given t =
    ((given ≡ pos 0) × (t ≡ pos 600))
    ⊎ (((given <ℤ pos 10) × (t ≡ pos 10)) ⊎ ((pos 10 ≤ℤ given) × (t ≡ given)))

worker_idle_ttl-IdleTime : (opts : DomainOpt) → IdleTime opts.max_idle_time (worker_idle_ttl opts)
unfolding worker_idle_ttl
worker_idle_ttl-IdleTime opts = elim (Bool-cases (eqb_ℤ opts.max_idle_time (pos 0))) [
  | inl zero_time ↦ inl ((eqb_ℤ_iff opts.max_idle_time 0).0 zero_time, rw zero_time refl)
  | inr given ↦ elim (Bool-cases (ltb_ℤ opts.max_idle_time (pos 10))) [
    | inl short ↦ inr (inl (below_of opts.max_idle_time (pos 10) short, rw (given, short) refl))
    | inr enough ↦
        inr (inr (not_below_of opts.max_idle_time (pos 10) enough, rw (given, enough) refl))
  ]
]

-- The content type that responses must have, if the options name one.
abbrev pub wanted_type : String → Option String
wanted_type mimetype = if str_eq mimetype "" then none else some mimetype

-- The fetcher of a crawl: what the options of the job and the client make of it.
pub record SetUp (opts : DomainOpt) (client : Client) (f : Fetcher) : Type 0 where
  pub asks_with : f.http_client ≡ client
  pub polite : f.disable_politeness ≡ opts.impolite
  pub delay : f.crawl_delay ≡ 50
  pub idle : IdleTime opts.max_idle_time f.worker_idle_ttl
  pub closes : f.auto_close ≡ true
  pub agent : f.user_agent ≡ opts.useragent
  pub threads : f.threads_per_site ≡ opts.threads_per_site
  pub on_error : f.mux.errors ≡ fetch_error_handler
  pub on_get :
      Memᴰ
        (record {
          method = "GET";
          content_type = wanted_type opts.mimetype;
          handler = fetch_http_get_handler;
        })
        f.mux.responses
  pub on_head :
      Memᴰ
        (record {
          method = "HEAD";
          content_type = wanted_type opts.mimetype;
          handler = fetch_http_head_handler;
        })
        f.mux.responses

pub make_fetcher-SetUp :
    (opts : DomainOpt) (client : Client) → SetUp opts client (make_fetcher opts client)
make_fetcher-SetUp opts client = record {
  asks_with = refl;
  polite = refl;
  delay = refl;
  idle = worker_idle_ttl-IdleTime opts;
  closes = refl;
  agent = refl;
  threads = refl;
  on_error = refl;
  on_get = Memᴰ.head refl;
  on_head = Memᴰ.tail (Memᴰ.head refl);
}
