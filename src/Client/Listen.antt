-- ===== src/Client/Listen.antt =====
-- `Listen` of client/client.go: the loop that syncs, hands the operations to the queues of the workers
-- and waits. The workers, which take the operations of a queue in their order, run the handler
-- elsewhere. A duration is in nanoseconds, below half of what its int64 holds; the log is left out.
pub mod Order
pub mod Waits
use line_go.Common.{
  ℕ, zero, suc, ◌+◌, ◌*◌, ◌%◌, String, Bool, true, false, not, ◌&&◌, ◌||◌, Option, none, some, List,
  [], ◌∷◌, ◌++◌, length, ltb, ◌==◌, if◌then◌else◌, ℤ, pos, negsuc, min,
}
use line_go.Protocol.Outcome.{Panic}
use line_go.Client.{
  Fault, Result, Client, Env, Moment, done, failed, crashed, posted, rejected, wrapped,
}
use line_go.Client.Models.{Operation}
use line_go.Client.Replies.{is_positive, http_status, is_status}
use line_go.Client.Sync.{sync_once}

pub data Queue : Type 0 where
  jobs critical invitations kicks : Queue

-- The delays of `ListenOptions`.
pub record Options : Type 0 where
  pub count : ℤ
  pub idle : ℤ
  pub retry : ℤ
  pub max_retry : ℤ

pub record Delays : Type 0 where
  pub idle : ℕ
  pub retry : ℕ
  pub max_retry : ℕ

unfoldable pub or_default : ℕ → ℤ → ℕ
or_default default (pos n) = if n == 0 then default else n
or_default default (negsuc n) = default

unfoldable pub or_at_least : ℕ → ℕ → ℤ → ℕ
or_at_least default least (pos n) = if ltb n least then default else n
or_at_least default least (negsuc n) = default

-- A longest delay below the first one is half a minute.
unfoldable pub delays_of : Options → Delays
unfolding or_default or_at_least
delays_of options = record {
  idle = or_default 100_000_000 options.idle;
  retry = or_default 1_000_000_000 options.retry;
  max_retry = or_at_least 30_000_000_000 (or_default 1_000_000_000 options.retry) options.max_retry;
}

unfoldable pub count_of : Options → ℤ
unfolding is_positive
count_of options = if is_positive options.count then options.count else pos 100

unfoldable pub is_type : ℕ → Operation → Bool
is_type wanted operation = elim operation.type [ pos n ↦ n == wanted | negsuc n ↦ false ]

-- `urgentOperation` and `criticalOperation`.
unfoldable pub is_urgent : Operation → Bool
unfolding is_type
is_urgent operation = is_type 124 operation || is_type 133 operation

unfoldable pub is_critical : Operation → Bool
unfolding is_type
is_critical operation = is_type 60 operation || is_type 122 operation || is_type 126 operation

-- The operations that pass a test, for a queue.
unfoldable pub to_queue : Queue → (Operation → Bool) → List Operation → List (Queue × Operation)
to_queue queue test [] = []
to_queue queue test (operation ∷ operations) =
    let later = to_queue queue test operations in
    if test operation then (queue, operation) ∷ later else later

-- The order in which the operations of a response are enqueued.
unfoldable pub sends : List Operation → List (Queue × Operation)
unfolding to_queue is_type is_critical is_urgent
sends operations =
    to_queue kicks (is_type 133) operations
    ++ (to_queue invitations (is_type 124) operations
        ++ (to_queue critical is_critical operations
            ++ to_queue jobs (λ operation. not (is_urgent operation) && not (is_critical operation))
                operations))

-- A client that listens: what was enqueued, the first one first, and the waits, the last one first.
pub record Loop (M : Type 0) : Type 0 where
  pub client : Client M
  pub sent : List (Queue × Operation)
  pub waits : List ℕ

-- What follows a pass of the loop: the next one with a delay for retries, or the end.
pub data Next : Type 0 where
  continues : ℕ → Next
  returns : Option Fault → Next
  panics : Panic → Next

unfoldable pub is_service : Fault → Bool
is_service (rejected method details) = true
is_service (wrapped e) = is_service e
is_service _ = false

unfoldable pub doubled : ℕ → ℕ → ℕ
doubled longest retry = if ltb longest (retry * 2) then longest else retry * 2

module _ {M : Type 0} (env : Env M) where
  -- Whether the context is done.
  unfoldable pub is_over : Loop M → Loop M × Bool
  is_over l = (
    record l { client = record l.client { tick = suc l.client.tick } },
    (env.at l.client.tick).cancelled,
  )

  -- `wait`: false where the context is done first.
  unfoldable pub wait : ℕ → Loop M → Loop M × Bool
  unfolding is_over
  wait duration l =
      let (after, over) = is_over l in (record after { waits = duration ∷ l.waits }, not over)

  -- `enqueueOperation` of each; false where the context is done first.
  unfoldable pub enqueue : List (Queue × Operation) → Loop M → Loop M × Bool
  unfolding is_over
  enqueue [] l = (l, true)
  enqueue (send ∷ rest) l =
      if (is_over l).1
      then ((is_over l).0, false)
      else enqueue rest (record l {
        client = record l.client { tick = suc l.client.tick };
        sent = l.sent ++ send ∷ [];
      })

  unfoldable pub wait_then : ℕ → Next → Loop M → Loop M × Next
  unfolding wait
  wait_then duration next l =
      ((wait duration l).0, if (wait duration l).1 then next else returns none)

  -- `isGracefulGOAWAY`.
  unfoldable pub is_graceful : Fault → Bool
  is_graceful e =
      env.search.has (env.search.to_lower (env.show e)) "goaway"
      && env.search.has (env.search.to_lower (env.show e)) "no_error"

  unfoldable pub recover : Delays → ℕ → Fault → Loop M → Loop M × Next
  unfolding is_graceful wait_then is_status http_status is_service doubled
  recover delays retry e l =
      if is_graceful e
      then wait_then (150_000_000 + (env.at l.client.tick).jitter % 350_000_000)
          (continues delays.retry) l
      else if is_status 410 (http_status e)
      then wait_then delays.retry (continues delays.retry) l
      else if is_service e
      then (l, returns (some e))
      else wait_then retry (continues (doubled delays.max_retry retry)) l

  -- What follows the operations of a response, of which all were enqueued or not.
  unfoldable pub rest_of_pass : Delays → List Operation → Bool → Bool → Loop M → Loop M × Next
  unfolding wait_then
  rest_of_pass delays operations has_more false l = (l, returns none)
  rest_of_pass delays operations has_more true l =
      if (length operations == 0) && not has_more
      then wait_then delays.idle (continues delays.retry) l
      else (l, continues delays.retry)

  unfoldable pub deliver : Delays → List Operation → Bool → Loop M → Loop M × Next
  unfolding enqueue sends rest_of_pass
  deliver delays operations has_more l =
      let (after, all) = enqueue (sends operations) l in
      rest_of_pass delays operations has_more all after

  unfoldable pub after_sync : Delays → ℕ → Result (List Operation × Bool) → Loop M → Loop M × Next
  unfolding deliver recover is_over
  after_sync delays retry (done (operations, has_more)) l = deliver delays operations has_more l
  after_sync delays retry (failed e) l =
      if (is_over l).1 then ((is_over l).0, returns none) else recover delays retry e (is_over l).0
  after_sync delays retry (crashed p) l = (l, panics p)

  -- One pass of the loop.
  unfoldable pub pass : ℤ → Delays → ℕ → Loop M → Loop M × Next
  unfolding is_over after_sync sync_once
  pass count delays retry l =
      if (is_over l).1
      then ((is_over l).0, returns none)
      else let (c, result) = sync_once env count (is_over l).0.client in
        after_sync delays retry result (record (is_over l).0 { client = c })

  -- The passes up to a number; `continues` where the loop goes on after them.
  unfoldable pub passes : ℕ → ℤ → Delays → ℕ → Loop M → Loop M × Next
  unfolding pass
  passes zero count delays retry l = (l, continues retry)
  passes (suc n) count delays retry l = elim (pass count delays retry l).1 [
    | continues next ↦ passes n count delays next (pass count delays retry l).0
    | returns e ↦ ((pass count delays retry l).0, returns e)
    | panics p ↦ ((pass count delays retry l).0, panics p)
  ]

  unfoldable pub listen : ℕ → Options → Loop M → Loop M × Next
  unfolding passes delays_of count_of
  listen n options l = passes n (count_of options) (delays_of options) (delays_of options).retry l
