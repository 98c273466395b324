-- ===== src/Client/Posts/Calls.antt =====
-- How many requests the calls of service/service.go and the refresh of a token post.
use line_go.Common.{
  ℕ, suc, ◌+◌, ◌≤◌, String, Bool, false, not, ◌&&◌, Option, none, some, ◌≡◌, refl, arith, List,
  length,
}
use line_go.Protocol.Value.{Value, Fields, Message, members}
use line_go.Protocol.Outcome.{Outcome, ok, err, panic, out_of_fuel}
use line_go.Protocol.Compact.{decode_message}
use line_go.Client.{
  Fault, Result, Which, Client, Env, Act, done, failed, crashed, and_then, ◌>>=◌, pure, throw, get,
  modify, post, moment, crash, refresher,
}
use line_go.Client.Replies.{
  Reply, result, exception, nothing, bad, Tokens, tokens_of, http_status, is_status,
}
use line_go.Client.Requests.{
  save_session, next_request, outcome_reply, or_again, answer_of, after_post, send_request, attempt,
  parse_tokens, refresh, store_tokens, refresh_access_token, refreshed_attempt, call,
}
use package.text.Mathlib.Text.{◌==◌ as str_eq}
use line_go.Client.Posts.{
  Posts, Posts-bind, Posts-if, Posts-pure, Posts-throw, Posts-get, Posts-wrapping,
}

module _ {M : Type 0} (env : Env M) where
  pub Posts-save_session : Posts 0 (save_session env)
  unfolding save_session
  Posts-save_session = record { posts = λ c. omega arith; same = λ c. refl }

  pub Posts-moment : Posts 0 (moment env)
  unfolding moment
  Posts-moment = record { posts = λ c. omega arith; same = λ c. refl }

  Posts-next_request : (which : Which) (token : String) → Posts 0 (next_request env which token)
  unfolding next_request ◌>>=◌ and_then get modify pure
  Posts-next_request which token = record { posts = λ c. omega arith; same = λ c. refl }

  Posts-outcome_reply :
      (method : List ℕ) (sequence : ℕ) (outcome : Outcome Message)
      → Posts 0 (outcome_reply env method sequence outcome)
  unfolding outcome_reply crash
  Posts-outcome_reply method sequence (ok message) = Posts-pure 0 _
  Posts-outcome_reply method sequence (err e) = Posts-throw 0 _
  Posts-outcome_reply method sequence (panic p) = record {
    posts = λ c. omega arith;
    same = λ c. refl;
  }
  Posts-outcome_reply method sequence out_of_fuel = Posts-throw 0 _

  -- What is done again posts at most so many requests.
  abbrev Again : ℕ → Option (String → Act M Value) → Type 0
  Again n none = Unit
  Again n (some again) = (access : String) → Posts n (again access)

  Posts-or_again :
      (n : ℕ) (again : Option (String → Act M Value)) (access : String) (refusal : Bool) (e : Fault)
      → Again n again
      → Posts n (or_again env again access refusal e)
  unfolding or_again
  Posts-or_again n none access refusal e h = Posts-throw n e
  Posts-or_again n (some again) access refusal e h = Posts-if n refusal (h access) (Posts-throw n e)

  Posts-answer_of :
      (n : ℕ) (method : List ℕ) (again : Option (String → Act M Value)) (access : String)
      (reply : Reply)
      → Again n again
      → Posts n (answer_of env method again access reply)
  unfolding answer_of
  Posts-answer_of n method again access (result value) h = Posts-pure n value
  Posts-answer_of n method again access (exception details) h = Posts-or_again n again access _ _ h
  Posts-answer_of n method again access nothing h = Posts-pure n _
  Posts-answer_of n method again access (bad reason) h = Posts-throw n _

  after_post-length :
      (n : ℕ) (method : List ℕ) (sequence : ℕ) (again : Option (String → Act M Value))
      (access : String) (r : Client M × Result (List ℕ))
      → Again n again
      → length (after_post env method sequence again access r).0.trace ≤ length r.0.trace + n
  unfolding after_post
  after_post-length n method sequence again access (c, done body) h =
      (Posts-bind 0 n n (omega arith)
          (Posts-outcome_reply method sequence (decode_message env.runtime body))
          (λ reply. Posts-answer_of n method again access reply h)).posts
        c
  after_post-length n method sequence again access (c, failed e) h =
      (Posts-or_again n again access (is_status 401 (http_status e)) e h).posts c
  after_post-length n method sequence again access (c, crashed p) h = omega arith

  after_post-same :
      (n : ℕ) (method : List ℕ) (sequence : ℕ) (again : Option (String → Act M Value))
      (access : String) (r : Client M × Result (List ℕ))
      → Again n again
      → (after_post env method sequence again access r).0.session.sync_state
        ≡ r.0.session.sync_state
  unfolding after_post
  after_post-same n method sequence again access (c, done body) h =
      (Posts-bind 0 n n (omega arith)
          (Posts-outcome_reply method sequence (decode_message env.runtime body))
          (λ reply. Posts-answer_of n method again access reply h)).same
        c
  after_post-same n method sequence again access (c, failed e) h =
      (Posts-or_again n again access (is_status 401 (http_status e)) e h).same c
  after_post-same n method sequence again access (c, crashed p) h = refl

  Posts-send_request :
      (n : ℕ) (which : Which) (method : List ℕ) (sequence : ℕ)
      (again : Option (String → Act M Value)) (access : String) (outcome : Outcome (List ℕ))
      → Again n again
      → Posts (suc n) (send_request env which method sequence again access outcome)
  unfolding send_request post crash throw
  Posts-send_request n which method sequence again access (ok payload) h = record {
    posts = λ c. omega (
      arith,
      after_post-length n method sequence again access (post env which payload access c) h,
    );
    same = λ c. after_post-same n method sequence again access (post env which payload access c) h;
  }
  Posts-send_request n which method sequence again access (err e) h = record {
    posts = λ c. omega arith;
    same = λ c. refl;
  }
  Posts-send_request n which method sequence again access (panic p) h = record {
    posts = λ c. omega arith;
    same = λ c. refl;
  }
  Posts-send_request n which method sequence again access out_of_fuel h = record {
    posts = λ c. omega arith;
    same = λ c. refl;
  }

  Posts-attempt :
      (n : ℕ) (which : Which) (method : List ℕ) (fs : Fields) (token : String)
      (again : Option (String → Act M Value))
      → Again n again
      → Posts (suc n) (attempt env which method fs token again)
  unfolding attempt
  Posts-attempt n which method fs token again h =
      Posts-bind 0 (suc n) (suc n) (omega arith) (Posts-next_request which token)
        λ (access, sequence). Posts-send_request n which method sequence again access _ h

  Posts-parse_tokens : (value : Value) → Posts 0 (parse_tokens env value)
  unfolding parse_tokens
  Posts-parse_tokens (members content) =
      Posts-if 0 (str_eq (tokens_of env.text content).access "") (Posts-throw 0 _) (Posts-pure 0 _)
  Posts-parse_tokens _ = Posts-throw 0 _

  Posts-refresh : (token access : String) → Posts 1 (refresh env token access)
  unfolding refresh
  Posts-refresh token access = Posts-if 1 (str_eq token "") (Posts-throw 1 _) (
      Posts-bind 1 0 1 (omega arith) (Posts-attempt 0 refresher _ _ access none tt)
        Posts-parse_tokens)

  Posts-store_tokens : (tokens : Tokens) → Posts 0 (store_tokens env tokens)
  unfolding store_tokens modify
  Posts-store_tokens tokens = Posts-bind 0 0 0 (omega arith) Posts-moment λ m.
      Posts-bind 0 0 0 (omega arith) (record { posts = λ c. omega arith; same = λ c. refl })
        λ u.
          Posts-bind 0 0 0 (omega arith) (Posts-wrapping 0 Posts-save_session) λ u'. Posts-pure 0 _

  pub Posts-refresh_access_token :
      (token : String) (force : Bool) → Posts 1 (refresh_access_token env token force)
  unfolding refresh_access_token
  Posts-refresh_access_token token force = Posts-bind 0 1 1 (omega arith) Posts-get λ c.
      Posts-if 1 (not force && not (str_eq token "") && not (str_eq c.session.access_token token))
        (Posts-pure 1 _)
        (Posts-if 1 (str_eq c.session.refresh_token "") (Posts-throw 1 _) (
          Posts-bind 1 0 1 (omega arith)
            (Posts-wrapping 1 (Posts-refresh c.session.refresh_token c.session.access_token))
            Posts-store_tokens))

  Posts-refreshed_attempt :
      (which : Which) (method : List ℕ) (fs : Fields) (access : String)
      → Posts 2 (refreshed_attempt env which method fs access)
  unfolding refreshed_attempt modify
  Posts-refreshed_attempt which method fs access =
      Posts-bind 1 1 2 (omega arith) (Posts-wrapping 1 (Posts-refresh_access_token access false))
        λ new.
          Posts-bind 0 1 1 (omega arith) (record { posts = λ c. omega arith; same = λ c. refl })
            λ u. Posts-attempt 0 which method fs new none tt

  pub Posts-call :
      (which : Which) (method : List ℕ) (fs : Fields) (token : String)
      → Posts 3 (call env which method fs token)
  unfolding call
  Posts-call which method fs token =
      Posts-attempt 2 which method fs token (some (refreshed_attempt env which method fs))
        (Posts-refreshed_attempt which method fs)
