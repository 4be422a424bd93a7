-- ===== src/Doer/Prefetching.antt =====
-- The goroutines of doer.go that fetch what `Do` prefetches: `execPrefetchReq` and
-- `processPrefetchCSSURL`. Nobody waits for them; they are run here one after the other.
use ideacrawler.Prelude.{
  String, Bool, true, false, List, [], ◌∷◌, none, some, Outcome, ok, blocks, panics, ◌>>◌, Result,
  val, err, ◌≡◌, ◌↔◌, refl, All,
}
use ideacrawler.Web.{Web, Response}
use ideacrawler.Doer.{World}

-- `fetch` is `doer.doer.Do` of a GET request for a link. Its response is nil if there is an error.
module _ (w : Web) (world : World) (fetch : String → Result Response) where
  read_all : Result Response → Outcome (Unit {0})
  read_all (err e) = panics
  read_all (val res) = ok tt

  -- The error of `Do` is not looked at, and the body of its response is read.
  unfoldable pub exec_prefetch_req : String → Outcome (Unit {0})
  unfolding read_all
  exec_prefetch_req link = read_all (fetch link)

  -- The links are started in order, up to the first of which no request can be made.
  css_requests : List String → List String
  css_requests [] = []
  css_requests (link ∷ links) =
      let rest = css_requests links in
      elim (world.new_request link) [ some e ↦ [] | none ↦ link ∷ rest ]

  css_started : Result (List String) → List String
  css_started (err e) = []
  css_started (val links) = css_requests links

  css_body : String → Result String → List String
  css_body link (err e) = []
  css_body link (val body) = css_started (world.prefetch_urls body link)

  css_response : String → Result Response → List String
  css_response link (err e) = []
  css_response link (val res) = css_body link res.body

  -- `processPrefetchCSSURL`: the links of the style sheet that it starts to fetch. Its error goes
  -- nowhere.
  unfoldable pub process_prefetch_css_url : String → List String
  unfolding css_response css_body css_started css_requests
  process_prefetch_css_url link = css_response link (fetch link)

  unfoldable pub exec_all : List String → Outcome (Unit {0})
  exec_all [] = ok tt
  exec_all (link ∷ links) = exec_prefetch_req link >> exec_all links

  -- What a call of `Do` has started: style sheets, which start more, and other links.
  unfoldable pub run_prefetch : Bool → String → Outcome (Unit {0})
  run_prefetch true link = exec_all (process_prefetch_css_url link)
  run_prefetch false link = exec_prefetch_req link

  unfoldable pub run_prefetches : List (Bool × String) → Outcome (Unit {0})
  run_prefetches [] = ok tt
  run_prefetches ((css, link) ∷ started) = run_prefetch css link >> run_prefetches started

  abbrev pub Answers : String → Type 0
  Answers link = (res : Response) × (fetch link ≡ val res)

  -- A style sheet itself may fail.
  abbrev pub Harmless : Bool × String → Type 0
  Harmless (true, link) = All Answers (process_prefetch_css_url link)
  Harmless (false, link) = Answers link

  read_all-ok : (r : Result Response) → (read_all r ≡ ok tt) ↔ ((res : Response) × (r ≡ val res))
  unfolding read_all
  read_all-ok (err e) = (λ run. cc, λ (res, fetched). cc)
  read_all-ok (val res) = (λ run. (res, refl), λ answered. refl)

  then-ok : (m n : Outcome (Unit {0})) → ((m >> n) ≡ ok tt) ↔ ((m ≡ ok tt) × (n ≡ ok tt))
  then-ok (ok tt) n = (λ run. (refl, run), λ both. both.1)
  then-ok blocks n = (λ run. cc, λ (first, rest). cc)
  then-ok panics n = (λ run. cc, λ (first, rest). cc)

  exec_prefetch_req-Answers : (link : String) → (exec_prefetch_req link ≡ ok tt) ↔ Answers link
  unfolding exec_prefetch_req
  exec_prefetch_req-Answers link = read_all-ok (fetch link)

  exec_all-Answers : (links : List String) → (exec_all links ≡ ok tt) ↔ All Answers links
  unfolding exec_all
  exec_all-Answers [] = (λ run. tt, λ all. refl)
  exec_all-Answers (link ∷ links) =
      let split = then-ok (exec_prefetch_req link) (exec_all links) in
      let head = exec_prefetch_req-Answers link in
      let tail = exec_all-Answers links in
      (
        λ run. (head.0 (split.0 run).0, tail.0 (split.0 run).1),
        λ (answers, rest). split.1 (head.1 answers, tail.1 rest),
      )

  run_prefetch-Harmless :
      (css : Bool) (link : String) → (run_prefetch css link ≡ ok tt) ↔ Harmless (css, link)
  unfolding run_prefetch
  run_prefetch-Harmless true link = exec_all-Answers (process_prefetch_css_url link)
  run_prefetch-Harmless false link = exec_prefetch_req-Answers link

  -- The goroutines that a call of `Do` starts come to their end, without a panic of the server,
  -- exactly if every link that is fetched is answered, but for the style sheets themselves.
  pub run_prefetches-Harmless :
      (started : List (Bool × String)) → (run_prefetches started ≡ ok tt) ↔ All Harmless started
  unfolding run_prefetches
  run_prefetches-Harmless [] = (λ run. tt, λ all. refl)
  run_prefetches-Harmless ((css, link) ∷ started) =
      let split = then-ok (run_prefetch css link) (run_prefetches started) in
      let head = run_prefetch-Harmless css link in
      let tail = run_prefetches-Harmless started in
      (
        λ run. (head.0 (split.0 run).0, tail.0 (split.0 run).1),
        λ (harmless, rest). split.1 (head.1 harmless, tail.1 rest),
      )
