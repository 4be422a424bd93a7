-- ===== src/RunJob/Lifecycle.antt =====
-- How a job of job.go ends: the moves of `RunJob`, of its cancel goroutine, and of those that ask for
-- a cancel, in any order.
use ideacrawler.Prelude.{true, false, ok, panics, ◌≡◌, ◌≢◌, ◌↔◌, refl, sym, ◌∙◌, subst, arith}
use ideacrawler.Prelude.Chan.{can_recv}
use ideacrawler.Job.{Job, unstarted, waiting, woken, gone, done, request_cancel}
use ideacrawler.RunJob.{start_canceller, take_stop, cancel_queue, close_send, close_done}

-- Where `RunJob` itself stands: before the cancel goroutine, with it, after the close of the send
-- channel, about to close `doneChan`, or returned.
pub data Phase : Type 0 where
  starting running sent_closed closing ended : Phase

pub record Run : Type 0 where
  pub phase : Phase
  pub job : Job

-- The moves. `cancel` is a send on `cancelChan`, from `CancelJob` or a handler. What the handlers do
-- with pages, links and requests touches none of this: `work`.
pub data Move : Run → Run → Type 0 where
  start :
      {j : Job}
      → Move
          (record { phase = starting; job = j })
          (record { phase = running; job = start_canceller j })
  work :
      {p : Phase} {j j' : Job}
      → j'.canceller ≡ j.canceller
      → j'.done_closed ≡ j.done_closed
      → Move (record { phase = p; job = j }) (record { phase = p; job = j' })
  cancel :
      {p : Phase} {j j' : Job}
      → request_cancel j ≡ ok j'
      → Move (record { phase = p; job = j }) (record { phase = p; job = j' })
  stop :
      {p : Phase} {j : Job}
      → j.canceller ≡ waiting
      → can_recv j.subscriber.stop_chan ≡ true
      → Move (record { phase = p; job = j }) (record { phase = p; job = take_stop j })
  -- The goroutine sees `doneChan` closed and returns.
  leave :
      {p : Phase} {j : Job}
      → j.canceller ≡ waiting
      → done j ≡ true
      → Move
          (record { phase = p; job = j })
          (record { phase = p; job = record j { canceller = gone } })
  cancel_close :
      {p : Phase} {j j' : Job}
      → j.canceller ≡ woken
      → cancel_queue j ≡ ok j'
      → Move (record { phase = p; job = j }) (record { phase = p; job = j' })
  -- `RunJob` returns, by itself or after `q.Cancel()`.
  end_send :
      {j j' : Job}
      → close_send j ≡ ok j'
      → Move (record { phase = running; job = j }) (record { phase = sent_closed; job = j' })
  -- The select: `doneChan` is closed, or it is still open.
  end_closed :
      {j : Job}
      → done j ≡ true
      → Move (record { phase = sent_closed; job = j }) (record { phase = ended; job = j })
  end_open :
      {j : Job}
      → done j ≡ false
      → Move (record { phase = sent_closed; job = j }) (record { phase = closing; job = j })
  end_done :
      {j j' : Job}
      → close_done j ≡ ok j'
      → Move (record { phase = closing; job = j }) (record { phase = ended; job = j' })

pub data Reach : Run → Type 0 where
  begin :
      {j : Job}
      → j.canceller ≡ unstarted
      → j.done_closed ≡ false
      → Reach (record { phase = starting; job = j })
  next : {r r' : Run} → Reach r → Move r r' → Reach r'

-- Before `RunJob` has returned, `doneChan` is only closed by the goroutine, which is then gone; and
-- once it has returned, it is closed.
abbrev pub ClosedBy : Phase → Job → Type 0
ClosedBy starting j = (j.canceller ≡ unstarted) × (j.done_closed ≡ false)
ClosedBy running j = j.done_closed ≡ true → j.canceller ≡ gone
ClosedBy sent_closed j = j.done_closed ≡ true → j.canceller ≡ gone
ClosedBy closing j = j.done_closed ≡ true → j.canceller ≡ gone
ClosedBy ended j = j.done_closed ≡ true

-- What a move inside a phase has to do to keep that.
record Settles (j j' : Job) : Type 0 where
  unstarted_stays :
      j.canceller ≡ unstarted → (j'.canceller ≡ unstarted) × (j'.done_closed ≡ j.done_closed)
  closed_stays : j.done_closed ≡ true → j'.done_closed ≡ true
  closed_gone :
      (j.done_closed ≡ true → j.canceller ≡ gone) → j'.done_closed ≡ true → j'.canceller ≡ gone

settled : (p : Phase) (j j' : Job) → Settles j j' → ClosedBy p j → ClosedBy p j'
settled starting j j' h c = let (u, d) = h.unstarted_stays c.0 in (u, d ∙ c.1)
settled running j j' h c = h.closed_gone c
settled sent_closed j j' h c = h.closed_gone c
settled closing j j' h c = h.closed_gone c
settled ended j j' h c = h.closed_stays c

ClosedBy-move : {r r' : Run} → ClosedBy r.phase r.job → Move r r' → ClosedBy r'.phase r'.job
unfolding start_canceller request_cancel take_stop cancel_queue close_send close_done
ClosedBy-move c start = λ closed. ground (arith, c.1, closed)
ClosedBy-move c (work {p} {j} {j'} same closed) =
    settled p j j'
      (record {
        unstarted_stays = λ u. (same ∙ u, closed);
        closed_stays = λ d. closed ∙ d;
        closed_gone = λ g d. same ∙ g (sym closed ∙ d);
      })
      c
ClosedBy-move c (cancel {p} {j} {j'} e) =
    settled p j j'
      (record {
        unstarted_stays = λ u. ground (arith, e, u);
        closed_stays = λ d. ground (arith, e, d);
        closed_gone = λ g d. ground (arith, e, g, d);
      })
      c
ClosedBy-move c (stop {p} {j} waits ready) =
    settled p j (take_stop j)
      (record {
        unstarted_stays = λ u. ground (arith, waits, u);
        closed_stays = λ d. d;
        closed_gone = λ g d. ground (arith, waits, g, d);
      })
      c
ClosedBy-move c (leave {p} {j} waits closed) =
    settled p j (record j { canceller = gone })
      (record {
        unstarted_stays = λ u. ground (arith, waits, u);
        closed_stays = λ d. d;
        closed_gone = λ g d. refl;
      })
      c
ClosedBy-move c (cancel_close {p} {j} {j'} woke e) =
    settled p j j'
      (record {
        unstarted_stays = λ u. ground (arith, woke, u);
        closed_stays = λ d. ground (arith, e, d);
        closed_gone = λ g d. ground (arith, e, d);
      })
      c
ClosedBy-move c (end_send {j} {j'} e) = λ d. ground (arith, e, c, d)
ClosedBy-move c (end_closed closed) = closed
ClosedBy-move c (end_open open_) = c
ClosedBy-move c (end_done {j} {j'} e) = ground (arith, e)

Reach-ClosedBy : {r : Run} → Reach r → ClosedBy r.phase r.job
Reach-ClosedBy (begin fresh open_) = (fresh, open_)
Reach-ClosedBy (next r m) = ClosedBy-move (Reach-ClosedBy r) m

open_close :
    (j : Job)
    → j.canceller ≡ woken
    → (j.done_closed ≡ true → j.canceller ≡ gone)
    → cancel_queue j ≢ panics
unfolding cancel_queue
open_close j woke c panic = ground (arith, woke, c, panic)

panics_at :
    (p : Phase) (j : Job)
    → ClosedBy p j
    → j.canceller ≡ woken
    → (cancel_queue j ≡ panics) ↔ (p ≡ ended)
unfolding cancel_queue
panics_at starting j c woke = ground (arith, c.0, woke)
panics_at running j c woke = ((λ h. elim (open_close j woke c h) [ ]), (λ h. ground (arith, h)))
panics_at sent_closed j c woke = ((λ h. elim (open_close j woke c h) [ ]), (λ h. ground (arith, h)))
panics_at closing j c woke = ((λ h. elim (open_close j woke c h) [ ]), (λ h. ground (arith, h)))
panics_at ended j c woke = ((λ _. refl), (λ _. ground (arith, c)))

-- Over any order of the moves, the cancel goroutine that has been woken panics at its close of
-- `doneChan` exactly if `RunJob` has returned in the meantime.
pub Reach-panics_iff :
    {r : Run}
    → Reach r
    → r.job.canceller ≡ woken
    → (cancel_queue r.job ≡ panics) ↔ (r.phase ≡ ended)
Reach-panics_iff {r} reach woke = panics_at r.phase r.job (Reach-ClosedBy reach) woke

-- Once `RunJob` has returned, `doneChan` is closed, however it came to return.
pub Reach-done : {r : Run} → Reach r → r.phase ≡ ended → done r.job ≡ true
Reach-done {r} reach e = subst (λ p. ClosedBy p r.job) e (Reach-ClosedBy reach)
