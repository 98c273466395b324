-- ===== src/Client/Listen/Order.antt =====
-- Which operations `Listen` of client/client.go hands to which queue.
use line_go.Common.{
  ℕ, suc, Bool, true, false, not, ◌&&◌, ◌≡◌, refl, sym, ap, ◌∙◌, arith, List, [], ◌∷◌, ◌++◌,
  append_assoc, append-nil, Bool-cases, inl, inr, if◌then◌else◌, ◌==◌, length,
}
use line_go.Client.{Env}
use line_go.Client.Models.{Operation}
use line_go.Client.Listen.{
  Queue, jobs, critical, invitations, kicks, Delays, Loop, continues, is_type, is_urgent,
  is_critical, to_queue, sends, is_over, wait, enqueue, wait_then, rest_of_pass, deliver,
}

unfoldable pub is_queue : Queue → Queue → Bool
is_queue jobs jobs = true
is_queue critical critical = true
is_queue invitations invitations = true
is_queue kicks kicks = true
is_queue _ _ = false

-- The queue of an operation, by its type.
unfoldable pub queue_of : Operation → Queue
unfolding is_type is_critical
queue_of operation =
    if is_type 133 operation
    then kicks
    else if is_type 124 operation
    then invitations
    else if is_critical operation
    then critical
    else jobs

unfoldable pub passing : (Operation → Bool) → List Operation → List Operation
passing test [] = []
passing test (operation ∷ operations) =
    let later = passing test operations in if test operation then operation ∷ later else later

-- The operations of a queue, in their order.
unfoldable pub operations_of : Queue → List Operation → List Operation
unfolding passing is_queue queue_of
operations_of queue = passing (λ operation. is_queue (queue_of operation) queue)

-- What was sent to a queue, in its order.
unfoldable pub sent_to : Queue → List (Queue × Operation) → List Operation
unfolding is_queue
sent_to queue [] = []
sent_to queue ((to, operation) ∷ rest) =
    let later = sent_to queue rest in if is_queue to queue then operation ∷ later else later

sent_to-append :
    (queue : Queue) (xs ys : List (Queue × Operation))
    → sent_to queue (xs ++ ys) ≡ sent_to queue xs ++ sent_to queue ys
unfolding sent_to
sent_to-append queue [] ys = refl
sent_to-append queue ((to, operation) ∷ xs) ys = elim (Bool-cases (is_queue to queue)) [
  | inl e ↦ rw e (ap (λ later. operation ∷ later) (sent_to-append queue xs ys))
  | inr e ↦ rw e (sent_to-append queue xs ys)
]

sent_to-to_queue :
    (queue to : Queue) (test : Operation → Bool) (operations : List Operation)
    → sent_to queue (to_queue to test operations)
      ≡ (if is_queue to queue then passing test operations else [])
unfolding sent_to to_queue passing
sent_to-to_queue queue to test [] = elim (Bool-cases (is_queue to queue)) [
  | inl e ↦ rw e refl
  | inr e ↦ rw e refl
]
sent_to-to_queue queue to test (operation ∷ operations) =
    let later = sent_to-to_queue queue to test operations in
    elim (Bool-cases (test operation)) [
      | inl e ↦ rw e (elim (Bool-cases (is_queue to queue)) [
        | inl h ↦ rw h (ap (λ xs. operation ∷ xs) (later ∙ rw h refl))
        | inr h ↦ rw h (later ∙ rw h refl)
      ])
      | inr e ↦ rw e later
    ]

passing-ext :
    (test other : Operation → Bool) (operations : List Operation)
    → ((operation : Operation) → test operation ≡ other operation)
    → passing test operations ≡ passing other operations
unfolding passing
passing-ext test other [] h = refl
passing-ext test other (operation ∷ operations) h =
    rw (h operation, passing-ext test other operations h) refl

passing_by_queue :
    (queue : Queue) (operations : List Operation)
    → (if is_queue kicks queue then passing (is_type 133) operations else [])
        ++ ((if is_queue invitations queue then passing (is_type 124) operations else [])
            ++ ((if is_queue critical queue then passing is_critical operations else [])
                ++ (if is_queue jobs queue
                    then passing
                        (λ operation. not (is_urgent operation) && not (is_critical operation))
                        operations
                    else [])))
      ≡ operations_of queue operations
unfolding operations_of queue_of is_queue is_critical is_urgent is_type
passing_by_queue kicks operations =
    append-nil _ ∙ passing-ext _ _ operations (λ operation. ground arith)
passing_by_queue invitations operations =
    append-nil _ ∙ passing-ext _ _ operations (λ operation. ground arith)
passing_by_queue critical operations =
    append-nil _ ∙ passing-ext _ _ operations (λ operation. ground arith)
passing_by_queue jobs operations = passing-ext _ _ operations (λ operation. ground arith)

-- Every operation of a response is sent to its queue, once, in its order.
sent_to-sends :
    (queue : Queue) (operations : List Operation)
    → sent_to queue (sends operations) ≡ operations_of queue operations
unfolding sends operations_of
sent_to-sends queue operations =
    rw
      (
        sent_to-append, sent_to-to_queue, sent_to-append, sent_to-to_queue, sent_to-append,
        sent_to-to_queue, sent_to-to_queue,
      )
      (passing_by_queue queue operations)

module _ {M : Type 0} (env : Env M) where
  -- Where the context is not done first, everything is enqueued in its order.
  enqueue-all :
      (xs : List (Queue × Operation)) (l : Loop M)
      → (enqueue env xs l).1 ≡ true
      → (enqueue env xs l).0.sent ≡ l.sent ++ xs
  unfolding enqueue is_over
  enqueue-all [] l h = sym (append-nil l.sent)
  enqueue-all (send ∷ rest) l h =
      go (env.at l.client.tick).cancelled refl h (λ k. enqueue-all rest next k)
    where
      next : Loop M
      next = record l {
        client = record l.client { tick = suc l.client.tick };
        sent = l.sent ++ send ∷ [];
      }

      after : Bool → Loop M × Bool
      after over =
          if over
          then (record l { client = record l.client { tick = suc l.client.tick } }, false)
          else enqueue env rest next

      go :
          (over : Bool)
          → (env.at l.client.tick).cancelled ≡ over
          → (after over).1 ≡ true
          → ((enqueue env rest next).1 ≡ true → (enqueue env rest next).0.sent ≡ next.sent ++ rest)
          → (after over).0.sent ≡ l.sent ++ send ∷ rest
      go true e k ih = absurd (ground arith)
      go false e k ih = ih k ∙ append_assoc l.sent (send ∷ []) rest

  rest_of_pass-sent :
      (delays : Delays) (operations : List Operation) (has_more all : Bool) (l : Loop M) (retry : ℕ)
      → (rest_of_pass env delays operations has_more all l).1 ≡ continues retry
      → (all ≡ true) × ((rest_of_pass env delays operations has_more all l).0.sent ≡ l.sent)
  unfolding rest_of_pass wait_then wait is_over
  rest_of_pass-sent delays operations has_more false l retry h = cc
  rest_of_pass-sent delays operations has_more true l retry h =
      elim (Bool-cases ((length operations == 0) && not has_more)) [
        | inl e ↦ (refl, rw e refl)
        | inr e ↦ (refl, rw e refl)
      ]

  -- Where the loop goes on after a response, whatever the environment does: what was sent to a queue
  -- is what had been sent to it, and behind it the operations of the response whose type belongs to
  -- that queue, each once, in their order.
  pub deliver-sends :
      (delays : Delays) (operations : List Operation) (has_more : Bool) (l : Loop M) (retry : ℕ)
      → (deliver env delays operations has_more l).1 ≡ continues retry
      → (queue : Queue)
      → sent_to queue (deliver env delays operations has_more l).0.sent
        ≡ sent_to queue l.sent ++ operations_of queue operations
  unfolding deliver
  deliver-sends delays operations has_more l retry h queue =
      let sent = enqueue env (sends operations) l in
      let (all, same) = rest_of_pass-sent delays operations has_more sent.1 sent.0 retry h in
      ap (sent_to queue) (same ∙ enqueue-all (sends operations) l all)
      ∙ (sent_to-append queue l.sent (sends operations)
          ∙ ap (λ xs. sent_to queue l.sent ++ xs) (sent_to-sends queue operations))
