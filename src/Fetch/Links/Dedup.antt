-- ===== src/Fetch/Links/Dedup.antt =====
-- `enqueueLinks` of job.go enqueues a URL once: within a page, and over the pages of a job.
use ideacrawler.Prelude.{
  String, Bool, true, false, ◌||◌, List, [], ◌∷◌, ◌++◌, All, All-append, ◌≡◌, refl, arith, str_eq,
  str_eq_iff, str_eq_refl,
}
use ideacrawler.Prelude.Dict.{Dict, marked, mark, marked-mark}
use ideacrawler.Job.{Job}
use ideacrawler.Web.{Web, Link}
use ideacrawler.Fetch.Links.{Scan, Page, scan_links, start_scan}
use ideacrawler.Fetch.Links.Effect.{Effect, skips, refuses, sends, link_step-Effect}

abbrev pub member : String → List String → Bool
member a [] = false
member a (x ∷ xs) = str_eq x a || member a xs

-- No text occurs twice.
abbrev pub Distinct : List String → Type 0
Distinct [] = Unit {0}
Distinct (x ∷ xs) = (member x xs ≡ false) × Distinct xs

abbrev pub AllMarked : Dict Bool → List String → Type 0
AllMarked d = All (λ u. marked u d ≡ true)

abbrev pub AllNew : Dict Bool → List String → Type 0
AllNew d = All (λ u. marked u d ≡ false)

pub member-append :
    (a : String) (xs ys : List String) → member a (xs ++ ys) ≡ (member a xs || member a ys)
member-append a [] ys = refl
member-append a (x ∷ xs) ys = ground (arith, member-append a xs ys)

pub not_member_of_new :
    (d : Dict Bool) (a : String) (xs : List String)
    → AllMarked d xs
    → marked a d ≡ false
    → member a xs ≡ false
not_member_of_new d a [] h e = refl
not_member_of_new d a (x ∷ xs) (m, h) e =
    ground (arith, str_eq_iff x a, not_member_of_new d a xs h e)

Distinct-concat :
    (xs : List String) (a : String) → Distinct xs → member a xs ≡ false → Distinct (xs ++ a ∷ [])
Distinct-concat [] a d h = (refl, tt)
Distinct-concat (x ∷ xs) a (n, d) h =
    ground
      (arith, Distinct-concat xs a d, member-append x xs (a ∷ []), str_eq_iff x a, str_eq_iff a x)

-- All that is marked in `d` is marked in `e`.
abbrev pub Grows : Dict Bool → Dict Bool → Type 0
Grows d e = (k : String) → marked k d ≡ true → marked k e ≡ true

pub Grows-mark : (k : String) (d e : Dict Bool) → Grows d e → Grows d (mark k e)
Grows-mark k d e g i m = ground (arith, marked-mark k i e, g i m)

pub AllMarked-Grows :
    (d e : Dict Bool) (xs : List String) → Grows d e → AllMarked d xs → AllMarked e xs
AllMarked-Grows d e [] g h = tt
AllMarked-Grows d e (x ∷ xs) g (m, h) = (g x m, AllMarked-Grows d e xs g h)

-- What holds between the duplicates before the loop, and the state in the loop.
pub record Once (d : Dict Bool) (s : Scan) : Type 0 where
  pub distinct : Distinct s.enqueued
  pub was_new : AllNew d s.enqueued
  pub noted : AllMarked s.duplicates s.enqueued
  pub grows : Grows d s.duplicates

pub new_before :
    (d e : Dict Bool) (k : String) → Grows d e → marked k e ≡ false → marked k d ≡ false
new_before d e k g h = ground (arith, g k)

module _ (w : Web) (j : Job) (pg : Page) where
  Effect-Once : (d : Dict Bool) (l : Link) (s t : Scan) → Effect w j pg l s t → Once d s → Once d t
  Effect-Once d l s t (skips a b c) o = record {
    distinct = rw c o.distinct;
    was_new = rw c o.was_new;
    noted = rw (a, c) o.noted;
    grows = rw a o.grows;
  }
  Effect-Once d l s t (refuses nurl a b c) o =
      let more = Grows-mark nurl s.duplicates s.duplicates (λ k m. m) in
      record {
        distinct = rw c o.distinct;
        was_new = rw c o.was_new;
        noted = rw (a, c) (AllMarked-Grows s.duplicates _ s.enqueued more o.noted);
        grows = rw a (Grows-mark nurl d s.duplicates o.grows);
      }
  Effect-Once d l s t (sends raw u parsed nurl at same fresh n g p a b c) o =
      let more = Grows-mark nurl s.duplicates s.duplicates (λ k m. m) in
      let here : marked nurl (mark nurl s.duplicates) ≡ true =
        rw (marked-mark nurl nurl s.duplicates, str_eq_refl nurl) refl in
      record {
        distinct = rw c (
            Distinct-concat s.enqueued nurl o.distinct
              (not_member_of_new s.duplicates nurl s.enqueued o.noted fresh));
        was_new = rw c (
            All-append _ s.enqueued (nurl ∷ []) o.was_new
              (new_before d s.duplicates nurl o.grows fresh, tt));
        noted =
            rw (a, c)
              (All-append _ s.enqueued (nurl ∷ [])
                (AllMarked-Grows s.duplicates _ s.enqueued more o.noted) (here, tt));
        grows = rw a (Grows-mark nurl d s.duplicates o.grows);
      }

  scan_links-Once :
      (d : Dict Bool) (ls : List Link) (s : Scan) → Once d s → Once d (scan_links w j pg ls s)
  unfolding scan_links
  scan_links-Once d [] s o = o
  scan_links-Once d (l ∷ ls) s o =
      scan_links-Once d ls _ (Effect-Once d l s _ (link_step-Effect w j pg l s) o)

  -- Of one page's links, no URL is enqueued twice, none that the job knew before is enqueued, each
  -- one enqueued is known afterwards, and nothing known is forgotten.
  pub scan_links-start_Once :
      (ls : List Link) → Once j.duplicates (scan_links w j pg ls (start_scan j))
  scan_links-start_Once ls =
      scan_links-Once j.duplicates ls (start_scan j)
        (record { distinct = tt; was_new = tt; noted = tt; grows = λ k m. m })
