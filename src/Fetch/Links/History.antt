-- ===== src/Fetch/Links/History.antt =====
-- Over the life of a job, `enqueueLinks` of job.go enqueues no URL a second time.
use ideacrawler.Prelude.{
  String, Bool, true, false, List, [], ◌∷◌, ◌++◌, All-append, ok, ◌≡◌, refl, arith, str_eq_iff, ◌∙◌,
}
use ideacrawler.Prelude.Dict.{Dict, marked}
use ideacrawler.Proto.{UrlList}
use ideacrawler.Job.{Job}
use ideacrawler.Web.{Web, Link}
use ideacrawler.Fetch.Links.{Page, scan_links, start_scan, send_report, enqueue_links}
use ideacrawler.Fetch.Links.Dedup.{
  member, Distinct, AllMarked, AllNew, member-append, Grows, AllMarked-Grows, scan_links-start_Once,
  new_before,
}

-- The URLs whose commands the queue takes when `j` handles the page.
abbrev pub enqueued_by : Web → Job → Page → List Link → List String
enqueued_by w j pg links = (scan_links w j pg links (start_scan j)).enqueued

send_report-duplicates :
    (ps : Bool) (list : UrlList) (j j' : Job)
    → send_report ps list j ≡ ok j'
    → j'.duplicates ≡ j.duplicates
unfolding send_report
send_report-duplicates ps list j j' h = ground arith

pub enqueue_links-duplicates :
    (w : Web) (ps : Bool) (pg : Page) (links : List Link) (j j' : Job)
    → enqueue_links w ps pg links j ≡ ok j'
    → j'.duplicates ≡ (scan_links w j pg links (start_scan j)).duplicates
unfolding enqueue_links
enqueue_links-duplicates w ps pg links j j' h = send_report-duplicates ps _ _ j' h

-- A history of a job that starts as `j₀`: its pages, and in between whatever else happens to it that
-- takes no entry out of `duplicates` (no code does). Beside the job, the URLs enqueued so far.
pub data History (w : Web) (j₀ : Job) : Job → List String → Type 0 where
  begin : History w j₀ j₀ []
  page :
      {j j' : Job} {urls : List String} (ps : Bool) (pg : Page) (links : List Link)
      → History w j₀ j urls
      → enqueue_links w ps pg links j ≡ ok j'
      → History w j₀ j' (urls ++ enqueued_by w j pg links)
  meanwhile :
      {j j' : Job} {urls : List String}
      → History w j₀ j urls
      → Grows j.duplicates j'.duplicates
      → History w j₀ j' urls

-- Beside what is said of the URLs, that the duplicates only grow.
pub record OnceEver (d₀ d : Dict Bool) (urls : List String) : Type 0 where
  pub distinct : Distinct urls
  pub was_new : AllNew d₀ urls
  pub noted : AllMarked d urls
  pub grows : Grows d₀ d

AllNew-before : (d e : Dict Bool) (xs : List String) → Grows d e → AllNew e xs → AllNew d xs
AllNew-before d e [] g h = tt
AllNew-before d e (x ∷ xs) g (n, h) = (new_before d e x g n, AllNew-before d e xs g h)

not_member_of_marked :
    (d : Dict Bool) (a : String) (ys : List String)
    → AllNew d ys
    → marked a d ≡ true
    → member a ys ≡ false
not_member_of_marked d a [] h m = refl
not_member_of_marked d a (y ∷ ys) (n, h) m =
    ground (arith, str_eq_iff y a, not_member_of_marked d a ys h m)

Distinct-append :
    (d : Dict Bool) (xs ys : List String)
    → Distinct xs
    → Distinct ys
    → AllMarked d xs
    → AllNew d ys
    → Distinct (xs ++ ys)
Distinct-append d [] ys dx dy m n = dy
Distinct-append d (x ∷ xs) ys (f, dx) dy (mx, m) n = (
  member-append x xs ys ∙ rw (f, not_member_of_marked d x ys n mx) refl,
  Distinct-append d xs ys dx dy m n,
)

OnceEver-page :
    (d₀ d e : Dict Bool) (urls more : List String)
    → OnceEver d₀ d urls
    → Distinct more
    → AllNew d more
    → AllMarked e more
    → Grows d e
    → OnceEver d₀ e (urls ++ more)
OnceEver-page d₀ d e urls more o dm n m g = record {
  distinct = Distinct-append d urls more o.distinct dm o.noted n;
  was_new = All-append _ urls more o.was_new (AllNew-before d₀ d more o.grows n);
  noted = All-append _ urls more (AllMarked-Grows d e urls g o.noted) m;
  grows = λ k h. g k (o.grows k h);
}

-- Over a whole history of a job: the URLs enqueued are pairwise distinct, none was known at the
-- start (so neither is the seed URL), and all are known at the end.
pub History-OnceEver :
    (w : Web) (j₀ : Job) {j : Job} {urls : List String}
    → History w j₀ j urls
    → OnceEver j₀.duplicates j.duplicates urls
History-OnceEver w j₀ begin = record { distinct = tt; was_new = tt; noted = tt; grows = λ k m. m }
History-OnceEver w j₀ (page {j} {j'} {urls} ps pg links h e) =
    let o = scan_links-start_Once w j pg links in
    rw (enqueue_links-duplicates w ps pg links j j' e) (
      OnceEver-page j₀.duplicates j.duplicates _ urls _ (History-OnceEver w j₀ h) o.distinct
        o.was_new o.noted o.grows)
History-OnceEver w j₀ (meanwhile {j} {j'} {urls} h g) =
    let o = History-OnceEver w j₀ h in
    record {
      distinct = o.distinct;
      was_new = o.was_new;
      noted = AllMarked-Grows j.duplicates j'.duplicates urls g o.noted;
      grows = λ k m. g k (o.grows k m);
    }
