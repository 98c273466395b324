-- ===== src/Client/Posts/Syncs.antt =====
-- How many requests `SyncOnce` of client/client.go posts.
use line_go.Common.{ℕ, ◌+◌, ◌≤◌, false, not, arith, Bool-cases, inl, inr, length, ℤ}
use line_go.Storage.{SyncState}
use line_go.Protocol.Value.{Value, members}
use line_go.Client.{
  Result, Client, Env, done, failed, crashed, and_then, ◌>>=◌, pure, throw, modify, wrapping, sync,
}
use line_go.Client.Replies.{is_positive}
use line_go.Client.Requests.{save_session}
use line_go.Client.Sync.{
  ensure_access_token, accept, requested, request_sync, sync_once, sync_fields, with_state,
  read_response, refresh_is_due, jwt_expiry,
}
use package.text.Mathlib.Text.{◌==◌ as str_eq}
use line_go.Client.Posts.{Posts, Posts-bind, Posts-if, Posts-pure, Posts-get, Posts-wrapping}
use line_go.Client.Posts.Calls.{
  Posts-save_session, Posts-moment, Posts-refresh_access_token, Posts-call,
}

module _ {M : Type 0} (env : Env M) where
  pub Posts-ensure_access_token : Posts 1 (ensure_access_token env)
  unfolding ensure_access_token
  Posts-ensure_access_token = Posts-bind 0 1 1 (omega arith) Posts-get λ c.
      Posts-if 1 (str_eq c.session.refresh_token "") (Posts-pure 1 _) (
        Posts-bind 0 1 1 (omega arith) (Posts-moment env) λ m.
          Posts-if 1
            (not (
              refresh_is_due m.now (jwt_expiry env.claim (env.parts c.session.access_token))
                c.session.token_refresh_at))
            (Posts-pure 1 _)
            (Posts-bind 1 0 1 (omega arith)
              (Posts-refresh_access_token env c.session.access_token false) λ new. Posts-pure 0 _))

  Posts-save : {A : Type 0} (a : A) → Posts 0 (wrapping (save_session env) >>= λ u. pure a)
  Posts-save a =
      Posts-bind 0 0 0 (omega arith) (Posts-wrapping 0 (Posts-save_session env)) λ u. Posts-pure 0 a

  accept-length :
      (state : SyncState) (value : Value) (c : Client M)
      → length (accept env state value c).0.trace ≤ length c.trace
  unfolding accept modify ◌>>=◌ and_then throw
  accept-length state (members response) c =
      let few : length (accept env state (members response) c).0.trace ≤ length c.trace + 0 =
        (Posts-save _).posts (with_state (read_response env.text state response).state c) in
      omega (arith, few)
  accept-length state _ c = omega arith

  Posts-requested : (count : ℤ) → Posts 3 (requested env count)
  unfolding requested
  Posts-requested count = Posts-bind 0 3 3 (omega arith) Posts-get λ c.
      Posts-bind 3 0 3 (omega arith)
        (Posts-call env sync (env.bytes "sync") (sync_fields c.session.sync_state count)
          c.session.access_token)
        λ value. Posts-pure 0 _

  Posts-request_sync : (count : ℤ) → Posts 4 (request_sync env count)
  unfolding request_sync
  Posts-request_sync count =
      Posts-bind 1 3 4 (omega arith) Posts-ensure_access_token λ u. Posts-requested count

  accepted-length :
      (n : ℕ) (r : Client M × Result (SyncState × Value))
      → length r.0.trace ≤ n
      → length (and_then (λ (state, value). accept env state value) r).0.trace ≤ n
  unfolding and_then
  accepted-length n (c, done (state, value)) h = omega (arith, h, accept-length state value c)
  accepted-length n (c, failed e) h = h
  accepted-length n (c, crashed p) h = h

  -- A sync posts at most four requests, whatever is answered: one to refresh a token that is due, the
  -- sync, and where its token is refused, one to refresh it and the sync again.
  pub sync_once-posts :
      (count : ℤ) (c : Client M) → length (sync_once env count c).0.trace ≤ length c.trace + 4
  unfolding sync_once ◌>>=◌ throw
  sync_once-posts count c = elim (Bool-cases (is_positive count)) [
    | inl e ↦
        rw (e, sync_once)
          (accepted-length (length c.trace + 4) (request_sync env count c)
            ((Posts-request_sync count).posts c))
    | inr e ↦ rw (e, sync_once) (omega arith)
  ]
