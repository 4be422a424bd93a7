-- ===== src/GoClient/Passing.antt =====
-- `run` of goclient/ideacrawlerclient.go and the goroutine that it starts, which passes the pages on to
-- the client, as a step relation.
use ideacrawler.Prelude.{
  Bool, true, false, List, [], ◌∷◌, ◌++◌, Option, none, some, ◌≡◌, refl, sym, ap, ◌∙◌, length,
  arith, ◌⊎◌, inl, inr, ◌<◌,
}
use mathlib.Core.List.{append_assoc}
use ideacrawler.Proto.{PageHtml}
use ideacrawler.GoClient.CrawlJob.{CrawlJob, PageRecv, page, eof, failed, finish, is_alive}

-- `stream` is what `Recv` gives. `closed` is whether `run` has returned and closed `phChan`. The
-- goroutine is `awake` after its three seconds, and `holds` the page that it has taken and not yet
-- sent on `implPageChan`; `passed` are the pages that it has.
pub record Running : Type 0 where
  pub cj : CrawlJob
  pub stream : List PageRecv
  pub ph_chan : List PageHtml
  pub closed : Bool
  pub awake : Bool
  pub holds : Option PageHtml
  pub passed : List PageHtml

-- `run` up to its loop.
abbrev pub start_run : CrawlJob → List PageRecv → Running
start_run cj stream = record {
  cj = record cj { started = true };
  stream = stream;
  ph_chan = [];
  closed = false;
  awake = false;
  holds = none;
  passed = [];
}

abbrev pub is_end : PageRecv → Bool
is_end (page p) = false
is_end eof = true
is_end (failed e) = true

-- A move of `run`, which receives a page when `phChan` has room and returns at the end of the stream,
-- or of the goroutine, which passes one page at a time when the client takes it.
pub data Relay (s : Running) : Running → Type 0 where
  receive :
      (p : PageHtml) (rs : List PageRecv)
      → s.closed ≡ false
      → s.stream ≡ page p ∷ rs
      → length s.ph_chan < 1000
      → Relay s (record s { stream = rs; ph_chan = s.ph_chan ++ p ∷ [] })
  ends :
      (e : PageRecv) (rs : List PageRecv)
      → s.closed ≡ false
      → s.stream ≡ e ∷ rs
      → is_end e ≡ true
      → Relay s (record s { cj = (finish s.cj).0; closed = true })
  wakes : Relay s (record s { awake = true })
  takes :
      (p : PageHtml) (ps : List PageHtml)
      → s.awake ≡ true
      → s.holds ≡ none
      → s.ph_chan ≡ p ∷ ps
      → Relay s (record s { ph_chan = ps; holds = some p })
  passes :
      (p : PageHtml)
      → s.holds ≡ some p
      → Relay s (record s { holds = none; passed = s.passed ++ p ∷ [] })

pub data Relays (s : Running) : Running → Type 0 where
  begin : Relays s s
  then_ : {t u : Running} → Relays s t → Relay t u → Relays s u

-- The pages of a stream up to its end.
abbrev pub pages_of : List PageRecv → List PageHtml
pages_of [] = []
pages_of (page p ∷ rs) = p ∷ pages_of rs
pages_of (eof ∷ rs) = []
pages_of (failed e ∷ rs) = []

abbrev pub held : Option PageHtml → List PageHtml
held none = []
held (some p) = p ∷ []

-- Each page of the stream `all` is in one place: passed on, held, in the channel, or yet to come; and
-- `run` returns at the end of the stream only, which leaves the job dead.
pub record Passes (all : List PageRecv) (s : Running) : Type 0 where
  pub accounted : pages_of all ≡ s.passed ++ (held s.holds ++ (s.ph_chan ++ pages_of s.stream))
  pub returned : (s.closed ≡ false) ⊎ ((is_alive s.cj ≡ false) × (pages_of s.stream ≡ []))

end-pages_of : (e : PageRecv) (rs : List PageRecv) → is_end e ≡ true → pages_of (e ∷ rs) ≡ []
end-pages_of (page p) rs h = cc
end-pages_of eof rs h = refl
end-pages_of (failed e) rs h = refl

finish-dead : (cj : CrawlJob) → is_alive (finish cj).0 ≡ false
unfolding finish is_alive
finish-dead cj = ground arith

Relay-Passes : (all : List PageRecv) {s t : Running} → Passes all s → Relay s t → Passes all t
Relay-Passes all {s = s} h (receive p rs open_ comes room) = record {
  accounted =
      h.accounted
      ∙ ap (λ r. s.passed ++ (held s.holds ++ (s.ph_chan ++ pages_of r))) comes
      ∙ ap (λ r. s.passed ++ (held s.holds ++ r))
          (sym (append_assoc s.ph_chan (p ∷ []) (pages_of rs)));
  returned = inl open_;
}
Relay-Passes all {s = s} h (ends e rs open_ comes over) = record {
  accounted = h.accounted;
  returned = inr (finish-dead s.cj, ap pages_of comes ∙ end-pages_of e rs over);
}
Relay-Passes all h wakes = record { accounted = h.accounted; returned = h.returned }
Relay-Passes all {s = s} h (takes p ps up free waits) = record {
  accounted =
      h.accounted
      ∙ ap (λ o. s.passed ++ (held o ++ (s.ph_chan ++ pages_of s.stream))) free
      ∙ ap (λ c. s.passed ++ (c ++ pages_of s.stream)) waits;
  returned = h.returned;
}
Relay-Passes all {s = s} h (passes p holds) = record {
  accounted =
      h.accounted
      ∙ ap (λ o. s.passed ++ (held o ++ (s.ph_chan ++ pages_of s.stream))) holds
      ∙ sym (append_assoc s.passed (p ∷ []) (s.ph_chan ++ pages_of s.stream));
  returned = h.returned;
}

-- Over any order of moves of `run` and its goroutine no page of the job's stream is lost, doubled or
-- moved before another: the pages passed on to the client, the one held, those in `phChan` and those
-- yet to come are, one after the other, the pages of the stream. `run` has returned only at the end
-- of the stream, and then the job is not alive; pages may still be on their way to the client.
pub Relays-Passes :
    (cj : CrawlJob) (stream : List PageRecv) {s : Running}
    → Relays (start_run cj stream) s
    → Passes stream s
Relays-Passes cj stream begin = record { accounted = refl; returned = inl refl }
Relays-Passes cj stream (then_ rs r) = Relay-Passes stream (Relays-Passes cj stream rs) r
