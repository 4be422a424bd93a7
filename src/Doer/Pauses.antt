-- ===== src/Doer/Pauses.antt =====
-- How long `Do` of doer.go pauses, with the numbers of `randomGenerator`.
use ideacrawler.Prelude.{ℕ, ◌≡◌, ◌⊎◌, String, val, err}
use ideacrawler.Prelude.Int.{ℤ, pos, ◌≤ℤ◌, ◌<ℤ◌}
use ideacrawler.Proto.{DomainOpt}
use ideacrawler.Job.{Job}
use ideacrawler.Web.{Web, Response}
use ideacrawler.Doer.{World, Done, least_delay}
use ideacrawler.Doer.Random.{Generator, lower}

module _ (draw : ℕ → ℤ → ℤ → ℤ) (opts : DomainOpt) (g : Generator) where
  abbrev pub least_next : ℤ
  least_next = lower draw opts.min_delay opts.max_delay g

  abbrev pub RandomPause : ℤ → Type 0
  RandomPause p =
      ((least_next ≤ℤ pos 0) × (p ≡ pos 0)) ⊎ ((pos 0 <ℤ least_next) × (least_next ≤ℤ p))

  -- A pause of `Do`, by the delays of the job and the turn of the generator.
  abbrev pub Pauses : ℤ → Type 0
  Pauses p =
      ((opts.max_delay ≤ℤ least_delay opts) × (p ≡ least_delay opts))
      ⊎ ((least_delay opts <ℤ opts.max_delay) × RandomPause p)

module _ (draw : ℕ → ℤ → ℤ → ℤ) (g : Generator) (world : World) (w : Web) (j : Job) where
  -- A call that fails does not pause, and one that gives a response does.
  abbrev pub PausesOn : Done → Type 0
  PausesOn d =
      (((e : String) × (d.result ≡ err e)) × (d.pause ≡ pos 0))
      ⊎ (((res : Response) × (d.result ≡ val res)) × Pauses draw j.opts g d.pause)
