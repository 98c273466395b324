-- ===== src/Client.antt =====
-- client/client.go: the state of a client, and what it does to the world. A method of the client is
-- a function of the client: it returns a value, an error or a panic, and leaves what it posted in
-- `trace`, the last post first. What the environment does at each moment (the time, the answer to a
-- post, the outcome of system calls) is a function of `tick`, which counts the moments.
-- A method runs without others in between; the locks of the client order its refreshes and its syncs.
pub mod Models
pub mod Replies
pub mod Requests
pub mod Sync
pub mod Listen
pub mod Does
pub mod Rotation
pub mod Posts
pub mod Revisions
pub mod Saved
mod Runs
use line_go.Common.{ℕ, suc, String, Bool, Option, none, some, List, [], ◌∷◌, ℤ}
use line_go.Files.{Calls}
use line_go.Storage.{Session, SessionJson}
use line_go.Protocol.Value.{Value}
use line_go.Protocol.Compact.Types.{Runtime}
use line_go.Protocol.Outcome.{Panic}
use line_go.Guard.Health.{TextSearch}

-- The errors that the client and its services make themselves.
pub data Reason : Type 0 where
  not_encoded not_decoded thrift_exception wrong_type mismatched no_result : Reason
  no_refresh_token no_access_token unexpected_result not_saved bad_count : Reason

-- An error value of Go. `posted` is an error of `Post`, with the status of an `HTTPError`;
-- `rejected` is a `service.Error` with its method and its details; `wrapped` is `fmt.Errorf` with %w.
pub data Fault : Type 0 where
  posted : String → Option ℕ → Fault
  rejected : List ℕ → Value → Fault
  own : Reason → Fault
  wrapped : Fault → Fault

pub data Result (A : Type 0) : Type 0 where
  done : A → Result A
  failed : Fault → Result A
  crashed : Panic → Result A

-- What `Post` of transport/client.go returns.
pub data Answer : Type 0 where
  answered : List ℕ → Answer
  refused : String → Option ℕ → Answer

-- A time is in milliseconds. `cancelled` is whether the context is done, `jitter` is `rand.Int63n`.
pub record Moment : Type 0 where
  pub now : ℕ
  pub answer : Answer
  pub calls : Calls
  pub cancelled : Bool
  pub jitter : ℕ

-- The services of a client, by their paths: those of `service.Talk`, and the refresh of tokens.
pub data Which : Type 0 where
  talk sync relation refresher : Which

-- `service.Service`: the last sequence ID, and the access token, "" where none is stored.
pub record Service : Type 0 where
  pub sequence : ℕ
  pub access : String

-- A post: the service, the payload and the access token.
pub record Post : Type 0 where
  pub which : Which
  pub payload : List ℕ
  pub access : String

pub record Client (M : Type 0) : Type 0 where
  pub session : Session M
  pub file : Option String
  pub services : Which → Service
  pub tick : ℕ
  pub trace : List Post

-- `text` is the string of some bytes and `bytes` the bytes of a string, `show` is `err.Error()`,
-- `parts` is `strings.Split` by a dot, and `claim` is the `exp` of a payload that is decoded.
pub record Env (M : Type 0) : Type 0 where
  pub json : SessionJson M
  pub runtime : Runtime
  pub search : TextSearch
  pub text : List ℕ → String
  pub bytes : String → List ℕ
  pub show : Fault → String
  pub parts : String → List String
  pub claim : String → Option ℤ
  pub at : ℕ → Moment

abbrev pub Act : Type 0 → Type 0 → Type 0
Act M A = Client M → Client M × Result A

-- What follows a value; an error or a panic ends the method.
unfoldable pub and_then :
    {M A B : Type 0} → (A → Act M B) → Client M × Result A → Client M × Result B
and_then f (c, done a) = f a c
and_then f (c, failed e) = (c, failed e)
and_then f (c, crashed p) = (c, crashed p)

infixl 5 ◌>>=◌ ◌>>◌
unfoldable pub ◌>>=◌ : {M A B : Type 0} → Act M A → (A → Act M B) → Act M B
unfolding and_then
◌>>=◌ m f c = and_then f (m c)

abbrev pub ◌>>◌ : {M B : Type 0} → Act M (Unit {0}) → Act M B → Act M B
m >> k = m >>= λ _. k

unfoldable pub pure : {M A : Type 0} → A → Act M A
pure a c = (c, done a)

unfoldable pub throw : {M A : Type 0} → Fault → Act M A
throw e c = (c, failed e)

unfoldable pub crash : {M A : Type 0} → Panic → Act M A
crash p c = (c, crashed p)

unfoldable pub get : {M : Type 0} → Act M (Client M)
get c = (c, done c)

unfoldable pub modify : {M : Type 0} → (Client M → Client M) → Act M (Unit {0})
modify f c = (f c, done tt)

unfoldable pub wrapped_result : {A : Type 0} → Result A → Result A
wrapped_result (done a) = done a
wrapped_result (failed e) = failed (wrapped e)
wrapped_result (crashed p) = crashed p

-- The error is wrapped by another.
unfoldable pub wrapping : {M A : Type 0} → Act M A → Act M A
unfolding wrapped_result
wrapping m c = ((m c).0, wrapped_result (m c).1)

unfoldable pub service_at : Which → Service → (Which → Service) → Which → Service
service_at talk s old talk = s
service_at sync s old sync = s
service_at relation s old relation = s
service_at refresher s old refresher = s
service_at which s old other = old other

module _ {M : Type 0} (env : Env M) where
  unfoldable pub moment : Act M Moment
  moment c = (record c { tick = suc c.tick }, done (env.at c.tick))

  -- `transport.Client.Post` on the path of a service.
  unfoldable pub post : Which → List ℕ → String → Act M (List ℕ)
  post which payload access c = (
    record c {
      tick = suc c.tick;
      trace = record { which = which; payload = payload; access = access } ∷ c.trace;
    },
    elim (env.at c.tick).answer [
      | answered body ↦ done body
      | refused text status ↦ failed (posted text status)
    ],
  )
