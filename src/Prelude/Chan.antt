-- ===== src/Prelude/Chan.antt =====
-- Go's buffered channels. A nil channel is `none`: a send or a receive on it waits for ever.
use Prim.Native.Nat.{ℕ}
use mathlib.Core.Bool.{Bool, true, false, ◌||◌}
use mathlib.Core.Option.{Option, none, some}
use mathlib.Core.List.{List, [], ◌∷◌, ◌++◌}
use ideacrawler.Prelude.Tests.{ltb, if◌then◌else◌}
use ideacrawler.Prelude.Lists.{length}
use ideacrawler.Prelude.Results.{Outcome, ok, blocks, panics}

pub record Chan {ℓ} (A : Type ℓ) : Type ℓ where
  pub cap : ℕ
  pub items : List A
  pub closed : Bool

module _ {ℓ} {A : Type ℓ} where
  -- `make(chan A, cap)`
  abbrev pub make : ℕ → Chan A
  make cap = record { cap = cap; items = []; closed = false }

  abbrev pub has_item : List A → Bool
  has_item [] = false
  has_item (x ∷ xs) = true

  -- Whether a receive case of a `select` is ready, and a send case.
  abbrev pub can_recv : Option (Chan A) → Bool
  can_recv none = false
  can_recv (some c) = c.closed || has_item c.items

  abbrev pub can_send : Option (Chan A) → Bool
  can_send none = false
  can_send (some c) = c.closed || ltb (length c.items) c.cap

  abbrev pub drop_first : List A → List A
  drop_first [] = []
  drop_first (x ∷ xs) = xs

  -- The channel after a receive that is ready.
  abbrev pub recv_rest : Option (Chan A) → Option (Chan A)
  recv_rest none = none
  recv_rest (some c) = some (record c { items = drop_first c.items })

  -- `c <- x`
  abbrev pub send : Option (Chan A) → A → Outcome (Option (Chan A))
  send none x = blocks
  send (some c) x =
      if c.closed
      then panics
      else if ltb (length c.items) c.cap
      then ok (some (record c { items = c.items ++ x ∷ [] }))
      else blocks

  -- `close(c)`
  abbrev pub close : Option (Chan A) → Outcome (Option (Chan A))
  close none = panics
  close (some c) = if c.closed then panics else ok (some (record c { closed = true }))
