-- ===== src/Client/Requests.antt =====
-- The calls of service/service.go, and the refresh of tokens in service/token_refresh.go and
-- client/client.go. A decoder out of fuel counts as an error.
use line_go.Common.{
  ℕ, suc, ◌+◌, ◌%◌, ◌^◌, String, Bool, false, not, ◌&&◌, Option, none, some, List, if◌then◌else◌,
}
use line_go.Storage.{save}
use line_go.Protocol.Value.{Value, text, members, Fields, Message}
use line_go.Protocol.Outcome.{Outcome, ok, err, panic, out_of_fuel}
use line_go.Protocol.Compact.{encode_call, decode_message}
use line_go.Client.{
  Fault, Result, Which, Client, Env, Act, ◌>>=◌, ◌>>◌, pure, throw, get, modify, wrapping,
  service_at, moment, post, done, failed, crashed, rejected, own, crash, refresher, not_encoded,
  not_decoded, no_refresh_token, no_access_token, unexpected_result,
}
use package.text.Mathlib.Text.{◌==◌ as str_eq}
use line_go.Client.Replies.{
  http_status, is_status, is_refreshable, Reply, result, exception, nothing, bad, read_reply,
  refresh_fields, Tokens, tokens_of, set_token, set_talk, with_tokens, saved_result,
}

module _ {M : Type 0} (env : Env M) where
  -- Saves the session.
  unfoldable pub save_session : Act M (Unit {0})
  unfolding saved_result
  save_session c =
      let (file, error) = save env.json (env.at c.tick).calls c.session c.file in
      (record c { tick = suc c.tick; file = file }, saved_result error)

  -- The token and the sequence ID of the next request.
  unfoldable pub next_request : Which → String → Act M (String × ℕ)
  unfolding service_at
  next_request which token = do
    c ← get
    let s = c.services which
    let sequence = (s.sequence + 1) % 2 ^ 64
    modify (λ c'. record c' {
      services = service_at which (record s { sequence = sequence }) c'.services;
    })
    pure (if str_eq s.access "" then token else s.access, sequence)

  unfoldable pub outcome_reply : List ℕ → ℕ → Outcome Message → Act M Reply
  unfolding read_reply
  outcome_reply method sequence (ok message) = pure (read_reply method sequence message)
  outcome_reply method sequence (err e) = throw (own not_decoded)
  outcome_reply method sequence (panic p) = crash p
  outcome_reply method sequence out_of_fuel = throw (own not_decoded)

  -- What is done where the token was refused: `again` has the token that was refused, and is `none`
  -- where there is no refresher or this is the second attempt.
  unfoldable pub or_again : Option (String → Act M Value) → String → Bool → Fault → Act M Value
  or_again none access refusal e = throw e
  or_again (some again) access refusal e = if refusal then again access else throw e

  unfoldable pub answer_of : List ℕ → Option (String → Act M Value) → String → Reply → Act M Value
  unfolding or_again is_refreshable
  answer_of method again access (result value) = pure value
  answer_of method again access (exception details) =
      or_again again access (is_refreshable details) (rejected method details)
  answer_of method again access nothing = pure Value.other
  answer_of method again access (bad reason) = throw (own reason)

  -- What follows the answer to a post; an error of `Post` is handled.
  unfoldable pub after_post :
      List ℕ
      → ℕ
      → Option (String → Act M Value)
      → String
      → Client M × Result (List ℕ)
      → Client M × Result Value
  unfolding outcome_reply answer_of or_again is_status http_status
  after_post method sequence again access (c, done body) =
      (outcome_reply method sequence (decode_message env.runtime body)
          >>= answer_of method again access)
        c
  after_post method sequence again access (c, failed e) =
      or_again again access (is_status 401 (http_status e)) e c
  after_post method sequence again access (c, crashed p) = (c, crashed p)

  unfoldable pub send_request :
      Which → List ℕ → ℕ → Option (String → Act M Value) → String → Outcome (List ℕ) → Act M Value
  unfolding after_post post
  send_request which method sequence again access (ok payload) c =
      after_post method sequence again access (post env which payload access c)
  send_request which method sequence again access (err e) c = throw (own not_encoded) c
  send_request which method sequence again access (panic p) c = crash p c
  send_request which method sequence again access out_of_fuel c = throw (own not_encoded) c

  -- `Service.call`, with what follows a refused token.
  unfoldable pub attempt :
      Which → List ℕ → Fields → String → Option (String → Act M Value) → Act M Value
  unfolding next_request send_request
  attempt which method fs token again = do
    (access, sequence) ← next_request which token
    send_request which method sequence again access (encode_call method fs sequence)

  unfoldable pub parse_tokens : Value → Act M Tokens
  unfolding tokens_of
  parse_tokens (members content) =
      if str_eq (tokens_of env.text content).access ""
      then throw (own no_access_token)
      else pure (tokens_of env.text content)
  parse_tokens _ = throw (own unexpected_result)

  -- `AccessTokenRefresh.Refresh`.
  unfoldable pub refresh : String → String → Act M Tokens
  unfolding attempt parse_tokens
  refresh refresh_token access =
      if str_eq refresh_token "" then throw (own no_refresh_token) else do
        value ←
            attempt refresher (env.bytes "refresh") (refresh_fields (env.bytes refresh_token))
              access none
        parse_tokens value

  unfoldable pub store_tokens : Tokens → Act M String
  unfolding with_tokens set_talk save_session
  store_tokens tokens = do
    m ← moment env
    modify (λ c. record c {
      session = with_tokens m.now tokens c.session;
      services = set_talk tokens.access c.services;
    })
    wrapping (save_session)
    pure tokens.access

  -- `refreshAccessToken`; the failed token is "" where none failed.
  unfoldable pub refresh_access_token : String → Bool → Act M String
  unfolding refresh store_tokens
  refresh_access_token refused force = do
    c ← get
    if not force && not (str_eq refused "") && not (str_eq c.session.access_token refused)
        then pure c.session.access_token
        else if str_eq c.session.refresh_token ""
        then throw (own no_refresh_token)
        else do
          tokens ← wrapping (refresh c.session.refresh_token c.session.access_token)
          store_tokens tokens

  -- The second attempt, by a token for the one that was refused.
  unfoldable pub refreshed_attempt : Which → List ℕ → Fields → String → Act M Value
  unfolding attempt refresh_access_token set_token
  refreshed_attempt which method fs access = do
    new ← wrapping (refresh_access_token access false)
    modify (λ c. record c { services = set_token which new c.services })
    attempt which method fs new none

  -- `Service.Call` of a service that `SetTokenRefresher` was called on.
  unfoldable pub call : Which → List ℕ → Fields → String → Act M Value
  unfolding attempt refreshed_attempt
  call which method fs token =
      attempt which method fs token (some (refreshed_attempt which method fs))
