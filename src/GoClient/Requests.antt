-- ===== src/GoClient/Requests.antt =====
-- What the calls on a `CrawlJob` of goclient/ideacrawlerclient.go send.
use ideacrawler.Prelude.{
  String, true, false, not, List, [], ◌∷◌, ◌++◌, map, Option, none, some, ◌≡◌, refl, sym, ap, subst,
  ◌∙◌, ◌⊎◌, inl, inr, arith, All, All-append, Option-cases, Bool-cases, if◌then◌else◌,
}
use ideacrawler.Proto.{PageRequest, PageReqType, get}
use ideacrawler.GoClient.CrawlJob.{
  CrawlJob, Rpc, Called, is_alive, send_on, send_request, page_request, add_page, add_js,
}

pub data Call : Type 0 where
  page_call : String → String → Call
  js_call : PageReqType → String → String → String → Call

abbrev pub call : Rpc → Call → CrawlJob → Called
call rpc (page_call url meta_str) cj = add_page rpc url meta_str cj
call rpc (js_call typ url js meta_str) cj = add_js rpc typ url js meta_str cj

-- The requests that go out over a sequence of calls, failed calls included.
abbrev pub sent : Rpc → List Call → CrawlJob → List PageRequest
sent rpc [] cj = []
sent rpc (c ∷ cs) cj = let (cj', rs, e) = call rpc c cj in rs ++ sent rpc cs cj'

-- The request that a call is for.
abbrev pub request_of : CrawlJob → Call → PageRequest
request_of cj (page_call url meta_str) = page_request cj get url "" meta_str
request_of cj (js_call typ url js meta_str) = page_request cj typ url js meta_str

-- What one request does: it fails, or it goes out; the job keeps its id and its life.
abbrev Sends : CrawlJob → PageRequest → Called → Type 0
Sends cj r (cj', rs, e) =
    (cj'.id ≡ cj.id)
    × (is_alive cj' ≡ is_alive cj)
    × (((rs ≡ []) × ((m : String) × (e ≡ some m))) ⊎ ((rs ≡ r ∷ []) × (e ≡ none)))

via : (cj : CrawlJob) (r : PageRequest) (c c' : Called) → c ≡ c' → Sends cj r c' → Sends cj r c
via cj r c c' e = subst (Sends cj r) (sym e)

abbrev opened : CrawlJob → CrawlJob
opened cj = record cj { has_pages_client = true }

send_on-Sends :
    (rpc : Rpc) (cj cj' : CrawlJob) (r : PageRequest)
    → cj'.id ≡ cj.id
    → is_alive cj' ≡ is_alive cj
    → Sends cj r (send_on rpc cj' r)
send_on-Sends rpc cj cj' r same life = elim (Option-cases (rpc.send_page r)) [
  | inl fine ↦
      via cj r (send_on rpc cj' r) (cj', r ∷ [], none) (ground (arith, fine))
        (same, life, inr (refl, refl))
  | inr (m, fails) ↦
      via cj r (send_on rpc cj' r) (cj', [], some m) (ground (arith, fails))
        (same, life, inl (refl, (m, refl)))
]

send_request-Sends :
    (rpc : Rpc) (cj : CrawlJob) (r : PageRequest) → Sends cj r (send_request rpc cj r)
unfolding send_request is_alive
send_request-Sends rpc cj r = elim (Bool-cases cj.has_pages_client) [
  | inl h ↦
      via cj r (send_request rpc cj r) (send_on rpc cj r) (ground (arith, h))
        (send_on-Sends rpc cj cj r refl refl)
  | inr h ↦ elim (Option-cases rpc.open_pages) [
    | inl fine ↦
        via cj r (send_request rpc cj r) (send_on rpc (opened cj) r) (ground (arith, h, fine))
          (send_on-Sends rpc cj (opened cj) r refl refl)
    | inr (m, fails) ↦
        via cj r (send_request rpc cj r) (cj, [], some m) (ground (arith, h, fails))
          (refl, refl, inl (refl, (m, refl)))
  ]
]

guarded :
    (rpc : Rpc) (cj : CrawlJob) (r : PageRequest) (message : String)
    → let c : Called =
        if not (is_alive cj) then (cj, [], some message) else send_request rpc cj r in
      Sends cj r c × (is_alive cj ≡ false → c.1 ≡ [])
guarded rpc cj r message = elim (Bool-cases (is_alive cj)) [
  | inl a ↦ (
    via cj r _ (send_request rpc cj r) (rw a refl) (send_request-Sends rpc cj r),
    λ h. ground (arith, a, h),
  )
  | inr d ↦ (
    via cj r _ (cj, [], some message) (rw d refl) (refl, refl, inl (refl, (message, refl))),
    λ h. rw d refl,
  )
]

call-Sends :
    (rpc : Rpc) (c : Call) (cj : CrawlJob)
    → Sends cj (request_of cj c) (call rpc c cj) × (is_alive cj ≡ false → (call rpc c cj).1 ≡ [])
unfolding add_page add_js
call-Sends rpc (page_call url meta_str) cj = guarded rpc cj (page_request cj get url "" meta_str) _
call-Sends rpc (js_call typ url js meta_str) cj =
    guarded rpc cj (page_request cj typ url js meta_str) _

pub request_of-id : (cj : CrawlJob) (c : Call) → (request_of cj c).job_id ≡ cj.id
request_of-id cj (page_call url meta_str) = refl
request_of-id cj (js_call typ url js meta_str) = refl

request_of-same :
    (cj cj' : CrawlJob) → cj.id ≡ cj'.id → (c : Call) → request_of cj c ≡ request_of cj' c
request_of-same cj cj' e (page_call url meta_str) =
    ap (λ i. record (page_request cj get url "" meta_str) { job_id = i }) e
request_of-same cj cj' e (js_call typ url js meta_str) =
    ap (λ i. record (page_request cj typ url js meta_str) { job_id = i }) e

map_same :
    (cj cj' : CrawlJob)
    → cj.id ≡ cj'.id
    → (cs : List Call) → map (request_of cj) cs ≡ map (request_of cj') cs
map_same cj cj' e [] = refl
map_same cj cj' e (c ∷ cs) =
    ap (λ r. r ∷ map (request_of cj) cs) (request_of-same cj cj' e c)
    ∙ ap (◌∷◌ (request_of cj' c)) (map_same cj cj' e cs)

succeeds :
    (rpc : Rpc) (cj : CrawlJob) (r : PageRequest) (message : String)
    → rpc.open_pages ≡ none
    → rpc.send_page r ≡ none
    → is_alive cj ≡ true
    → let c : Called =
        if not (is_alive cj) then (cj, [], some message) else send_request rpc cj r in
      c.2 ≡ none
unfolding send_request
succeeds rpc cj r message o s a = rw a (ground (arith, o, s))

call-succeeds :
    (rpc : Rpc) (c : Call) (cj : CrawlJob)
    → rpc.open_pages ≡ none
    → ((r : PageRequest) → rpc.send_page r ≡ none)
    → is_alive cj ≡ true
    → (call rpc c cj).2 ≡ none
unfolding add_page add_js
call-succeeds rpc (page_call url meta_str) cj o s a = succeeds rpc cj _ _ o (s _) a
call-succeeds rpc (js_call typ url js meta_str) cj o s a = succeeds rpc cj _ _ o (s _) a

-- All requests that go out over calls of `AddPage` and `AddJS`, whatever fails in between, carry the
-- id of the job.
pub sent-same_job :
    (rpc : Rpc) (cs : List Call) (cj : CrawlJob) → All (λ r. r.job_id ≡ cj.id) (sent rpc cs cj)
sent-same_job rpc [] cj = tt
sent-same_job rpc (c ∷ cs) cj =
    let ((same, life, out), dead) = call-Sends rpc c cj in
    All-append (λ r. r.job_id ≡ cj.id) (call rpc c cj).1 (sent rpc cs (call rpc c cj).0)
      (one_id out)
      (subst (λ i. All (λ r. r.job_id ≡ i) (sent rpc cs (call rpc c cj).0)) same
        (sent-same_job rpc cs (call rpc c cj).0))
  where
    one_id :
        {rs : List PageRequest} {e : Option String}
        → ((rs ≡ []) × ((m : String) × (e ≡ some m))) ⊎ ((rs ≡ request_of cj c ∷ []) × (e ≡ none))
        → All (λ r. r.job_id ≡ cj.id) rs
    one_id (inl (none_out, m)) = rw none_out tt
    one_id (inr (one_out, m)) = rw one_out (request_of-id cj c, tt)

-- Over a job that is not alive no request goes out.
pub sent-dead :
    (rpc : Rpc) (cs : List Call) (cj : CrawlJob) → is_alive cj ≡ false → sent rpc cs cj ≡ []
sent-dead rpc [] cj d = refl
sent-dead rpc (c ∷ cs) cj d =
    let ((same, life, out), dead) = call-Sends rpc c cj in
    rw (dead d) (sent-dead rpc cs (call rpc c cj).0 (life ∙ d))

-- Over a job that is alive, with a stream that opens and never fails, exactly the requests of the
-- calls go out, in order.
pub sent-all :
    (rpc : Rpc) (cs : List Call) (cj : CrawlJob)
    → rpc.open_pages ≡ none
    → ((r : PageRequest) → rpc.send_page r ≡ none)
    → is_alive cj ≡ true
    → sent rpc cs cj ≡ map (request_of cj) cs
sent-all rpc [] cj o s a = refl
sent-all rpc (c ∷ cs) cj o s a =
    let ((same, life, out), dead) = call-Sends rpc c cj in
    let rest = sent-all rpc cs (call rpc c cj).0 o s (life ∙ a) in
    went out (call-succeeds rpc c cj o s a) (rest ∙ map_same (call rpc c cj).0 cj same cs)
  where
    went :
        {rs qs : List PageRequest} {e : Option String} {ps : List PageRequest}
        → ((rs ≡ []) × ((m : String) × (e ≡ some m))) ⊎ ((rs ≡ request_of cj c ∷ []) × (e ≡ none))
        → e ≡ none
        → qs ≡ ps
        → rs ++ qs ≡ request_of cj c ∷ ps
    went (inl (none_out, (m, fails))) fine rest = cc
    went (inr (one_out, m)) fine rest = rw one_out (ap (◌∷◌ (request_of cj c)) rest)
