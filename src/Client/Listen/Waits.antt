-- ===== src/Client/Listen/Waits.antt =====
-- How long `Listen` of client/client.go waits.
use line_go.Common.{
  ℕ, zero, suc, ◌≤◌, Bool, true, false, not, ◌&&◌, ◌≡◌, arith, List, [], ◌∷◌, length, ◌==◌, ℤ,
  Bool-cases, inl, inr,
}
use line_go.Client.{Fault, Result, Env, done, failed, crashed}
use line_go.Client.Models.{Operation}
use line_go.Client.Replies.{http_status, is_status}
use line_go.Client.Sync.{sync_once}
use line_go.Client.Listen.{
  Queue, Options, Delays, Loop, Next, continues, returns, panics, delays_of, count_of, is_service,
  doubled, sends, is_over, wait, enqueue, wait_then, is_graceful, recover, rest_of_pass, deliver,
  after_sync, pass, passes, listen,
}

abbrev pub AllAtMost : ℕ → List ℕ → Type 0
AllAtMost bound [] = Unit
AllAtMost bound (n ∷ ns) = (n ≤ bound) × AllAtMost bound ns

abbrev pub NextAtMost : ℕ → Next → Type 0
NextAtMost bound (continues retry) = retry ≤ bound
NextAtMost bound _ = Unit

-- No delay is above a bound, nor the longest wait for a new connection.
pub record AreWithin (bound : ℕ) (delays : Delays) : Type 0 where
  pub idle : delays.idle ≤ bound
  pub retry : delays.retry ≤ bound
  pub max_retry : delays.max_retry ≤ bound
  pub reconnect : 500_000_000 ≤ bound

module _ {M : Type 0} (env : Env M) (bound : ℕ) where
  abbrev pub IsWithin : Loop M × Next → Type 0
  IsWithin (l, next) = AllAtMost bound l.waits × NextAtMost bound next

  wait_then-IsWithin :
      (duration : ℕ) (next : Next) (l : Loop M)
      → duration ≤ bound
      → NextAtMost bound next
      → AllAtMost bound l.waits
      → IsWithin (wait_then env duration next l)
  unfolding wait_then wait is_over
  wait_then-IsWithin duration next l d n h = elim (Bool-cases (env.at l.client.tick).cancelled) [
    | inl e ↦ rw e ((d, h), tt)
    | inr e ↦ rw e ((d, h), n)
  ]

  enqueue-AllAtMost :
      (xs : List (Queue × Operation)) (l : Loop M)
      → AllAtMost bound l.waits
      → AllAtMost bound (enqueue env xs l).0.waits
  unfolding enqueue is_over
  enqueue-AllAtMost [] l h = h
  enqueue-AllAtMost (send ∷ rest) l h = elim (Bool-cases (env.at l.client.tick).cancelled) [
    | inl e ↦ rw e h
    | inr e ↦ rw e (enqueue-AllAtMost rest _ h)
  ]

  recover-IsWithin :
      (delays : Delays) (retry : ℕ) (e : Fault) (l : Loop M)
      → AreWithin bound delays
      → retry ≤ bound
      → AllAtMost bound l.waits
      → IsWithin (recover env delays retry e l)
  unfolding recover doubled
  recover-IsWithin delays retry e l w r h = elim (Bool-cases (is_graceful env e)) [
    | inl g ↦ rw (g, recover) (wait_then-IsWithin _ _ l (omega (arith, w.reconnect)) w.retry h)
    | inr g ↦ elim (Bool-cases (is_status 410 (http_status e))) [
      | inl s ↦ rw (g, recover) (rw s (wait_then-IsWithin _ _ l w.retry w.retry h))
      | inr s ↦ elim (Bool-cases (is_service e)) [
        | inl i ↦ rw (g, recover) (rw (s, i) (h, tt))
        | inr i ↦
            rw (g, recover) (rw (s, i) (wait_then-IsWithin _ _ l r (ground (arith, w.max_retry)) h))
      ]
    ]
  ]

  rest_of_pass-IsWithin :
      (delays : Delays) (operations : List Operation) (has_more all : Bool) (l : Loop M)
      → AreWithin bound delays
      → AllAtMost bound l.waits
      → IsWithin (rest_of_pass env delays operations has_more all l)
  unfolding rest_of_pass
  rest_of_pass-IsWithin delays operations has_more false l w h = (h, tt)
  rest_of_pass-IsWithin delays operations has_more true l w h =
      elim (Bool-cases ((length operations == 0) && not has_more)) [
        | inl e ↦ rw e (wait_then-IsWithin _ _ l w.idle w.retry h)
        | inr e ↦ rw e (h, w.retry)
      ]

  after_sync-IsWithin :
      (delays : Delays) (retry : ℕ) (result : Result (List Operation × Bool)) (l : Loop M)
      → AreWithin bound delays
      → retry ≤ bound
      → AllAtMost bound l.waits
      → IsWithin (after_sync env delays retry result l)
  unfolding after_sync deliver is_over
  after_sync-IsWithin delays retry (done (operations, has_more)) l w r h =
      rest_of_pass-IsWithin delays operations has_more _ _ w
        (enqueue-AllAtMost (sends operations) l h)
  after_sync-IsWithin delays retry (failed e) l w r h =
      elim (Bool-cases (env.at l.client.tick).cancelled) [
        | inl c ↦ rw c (h, tt)
        | inr c ↦ rw c (recover-IsWithin delays retry e _ w r h)
      ]
  after_sync-IsWithin delays retry (crashed p) l w r h = (h, tt)

  pass-IsWithin :
      (count : ℤ) (delays : Delays) (retry : ℕ) (l : Loop M)
      → AreWithin bound delays
      → retry ≤ bound
      → AllAtMost bound l.waits
      → IsWithin (pass env count delays retry l)
  unfolding pass is_over
  pass-IsWithin count delays retry l w r h = elim (Bool-cases (env.at l.client.tick).cancelled) [
    | inl c ↦ rw c (h, tt)
    | inr c ↦
        let next = sync_once env count (is_over env l).0.client in
        rw c (
          after_sync-IsWithin delays retry next.1 (record (is_over env l).0 { client = next.0 }) w r
            h)
  ]

  passes-IsWithin :
      (n : ℕ) (count : ℤ) (delays : Delays) (retry : ℕ) (l : Loop M)
      → AreWithin bound delays
      → retry ≤ bound
      → AllAtMost bound l.waits
      → IsWithin (passes env n count delays retry l)
  unfolding passes
  passes-IsWithin zero count delays retry l w r h = (h, r)
  passes-IsWithin (suc n) count delays retry l w r h =
      go (pass env count delays retry l) (pass-IsWithin count delays retry l w r h)
        (λ next l' r' h'. passes-IsWithin n count delays next l' w r' h')
    where
      go :
          (one : Loop M × Next)
          → IsWithin one
          → ((next : ℕ) (l' : Loop M)
              → next ≤ bound
              → AllAtMost bound l'.waits
              → IsWithin (passes env n count delays next l'))
          → IsWithin (elim one.1 [
            | continues next ↦ passes env n count delays next one.0
            | returns e ↦ (one.0, returns e)
            | panics p ↦ (one.0, panics p)
          ])
      go (l', continues next) (h', r') k = k next l' r' h'
      go (l', returns e) (h', r') k = (h', tt)
      go (l', panics p) (h', r') k = (h', tt)

-- Where the delays of the options and half a second are within a bound, no wait of the loop is above
-- it, after however many passes and whatever errors the syncs meet.
pub listen-waits :
    {M : Type 0} (env : Env M) (bound n : ℕ) (options : Options) (l : Loop M)
    → AreWithin bound (delays_of options)
    → l.waits ≡ []
    → AllAtMost bound (listen env n options l).0.waits
unfolding listen
listen-waits env bound n options l w start =
    (passes-IsWithin env bound n (count_of options) (delays_of options) _ l w w.retry
      (rw start tt)).0
