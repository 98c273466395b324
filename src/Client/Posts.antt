-- ===== src/Client/Posts.antt =====
-- How many requests a method of client/client.go posts: an action is put together of others.
pub mod Calls
pub mod Syncs
use line_go.Common.{
  ℕ, suc, ◌+◌, ◌≤◌, String, Bool, true, false, not, ◌&&◌, Option, none, some, ◌≡◌, refl, ◌∙◌, arith,
  Bool-cases, inl, inr, List, length, if◌then◌else◌, ℤ,
}
use line_go.Storage.{SyncState}
use line_go.Protocol.Value.{Value, Fields, Message, members}
use line_go.Protocol.Outcome.{Outcome, ok, err, panic, out_of_fuel}
use line_go.Protocol.Compact.{decode_message}
use line_go.Client.{
  Fault, Result, Which, Client, Env, Act, done, failed, crashed, and_then, ◌>>=◌, pure, throw, get,
  modify, wrapping, post, moment, crash, refresher, sync,
}
use line_go.Client.Replies.{
  Reply, result, exception, nothing, bad, Tokens, tokens_of, is_positive, http_status, is_status,
}
use line_go.Client.Requests.{
  save_session, next_request, outcome_reply, or_again, answer_of, after_post, send_request, attempt,
  parse_tokens, refresh, store_tokens, refresh_access_token, refreshed_attempt, call,
}
use line_go.Client.Sync.{
  ensure_access_token, accept, requested, request_sync, sync_once, sync_fields, with_state,
  read_response, refresh_is_due, jwt_expiry,
}
use package.text.Mathlib.Text.{◌==◌ as str_eq}

module _ {M : Type 0} where
  -- An action that posts at most so many requests and leaves the revisions, whatever it returns.
  pub record Posts {A : Type 0} (n : ℕ) (m : Act M A) : Type 0 where
    pub posts : (c : Client M) → length (m c).0.trace ≤ length c.trace + n
    pub same : (c : Client M) → (m c).0.session.sync_state ≡ c.session.sync_state

  and_then-length :
      {A B : Type 0} {f : A → Act M B} (k n : ℕ) (r : Client M × Result A)
      → length r.0.trace ≤ n
      → ((a : A) → Posts k (f a))
      → length (and_then f r).0.trace ≤ n + k
  unfolding and_then
  and_then-length k n (c, done a) h l = omega (arith, h, (l a).posts c)
  and_then-length k n (c, failed e) h l = omega (arith, h)
  and_then-length k n (c, crashed p) h l = omega (arith, h)

  and_then-same :
      {A B : Type 0} {f : A → Act M B} (k : ℕ) (r : Client M × Result A)
      → ((a : A) → Posts k (f a))
      → (and_then f r).0.session.sync_state ≡ r.0.session.sync_state
  unfolding and_then
  and_then-same k (c, done a) l = (l a).same c
  and_then-same k (c, failed e) l = refl
  and_then-same k (c, crashed p) l = refl

  pub Posts-bind :
      {A B : Type 0} {m : Act M A} {f : A → Act M B} (n k total : ℕ)
      → n + k ≤ total
      → Posts n m
      → ((a : A) → Posts k (f a))
      → Posts total (m >>= f)
  unfolding ◌>>=◌
  Posts-bind {m} n k total few h l = record {
    posts = λ c. omega (arith, few, and_then-length k (length c.trace + n) (m c) (h.posts c) l);
    same = λ c. and_then-same k (m c) l ∙ h.same c;
  }

  pub Posts-if :
      {A : Type 0} (n : ℕ) (b : Bool) {m k : Act M A}
      → Posts n m
      → Posts n k
      → Posts n (if b then m else k)
  Posts-if n true h l = h
  Posts-if n false h l = l

  pub Posts-pure : {A : Type 0} (n : ℕ) (a : A) → Posts n (pure a)
  unfolding pure
  Posts-pure n a = record { posts = λ c. omega arith; same = λ c. refl }

  pub Posts-throw : {A : Type 0} (n : ℕ) (e : Fault) → Posts n (throw {A = A} e)
  unfolding throw
  Posts-throw n e = record { posts = λ c. omega arith; same = λ c. refl }

  pub Posts-get : Posts 0 get
  unfolding get
  Posts-get = record { posts = λ c. omega arith; same = λ c. refl }

  pub Posts-wrapping : {A : Type 0} {m : Act M A} (n : ℕ) → Posts n m → Posts n (wrapping m)
  unfolding wrapping
  Posts-wrapping n h = record { posts = λ c. h.posts c; same = λ c. h.same c }
