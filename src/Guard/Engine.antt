-- ===== src/Guard/Engine.antt =====
-- guard/engine.go: the state of the guard's engine and what its handlers do to the world. A handler
-- is a function of the engine: it returns a value, and leaves the calls that it made of the network
-- in `trace`, the last one first. What the environment does at each moment (the time, the answer of
-- a call, the outcome of system calls) is a function of `tick`, which counts the moments.
-- A client is its MID; a map from MIDs to clients is the list of its entries. The goroutine that
-- saves a blacklist entry beside a kick runs before it; other handlers run before or after.
pub mod Memory
pub mod WarReports
pub mod WarCommands
pub mod KickAll
pub mod Reserves
pub mod Fleet
pub mod Messages
pub mod MemberCommands
pub mod Commands
pub mod WarRecords
pub mod Actions
pub mod Invitation
pub mod Kick
pub mod Handlers
pub mod Leads
pub mod Calm
pub mod CalmStores
pub mod FairWarCommands
pub mod FairReserves
pub mod FairKickAll
pub mod Refused
pub mod FairCommands
pub mod FairMembers
pub mod FairExecute
pub mod FairMessages
pub mod FairRecovery
pub mod Fair
pub mod FairActions
pub mod Spares
pub mod FairInvitation
pub mod FairKick
pub mod FairHandlers
pub mod HandleFair
pub mod Recent
mod Runs
use line_go.Common.{ℕ, suc, String, Bool, Option, List, [], ◌∷◌, ℤ}
use line_go.Files.{ReadResult}
use line_go.Guard.Commands.{Words, Metadata}
use line_go.Guard.Store.Persist.{Json, Calls, Store}
use line_go.Guard.Store.Settings.{Strings}
use line_go.Guard.Health.{Pool, TextSearch}

pub data BotKind : Type 0 where
  primary reserve : BotKind

pub record AuditEvent : Type 0 where
  pub at : ℕ
  pub action : String
  pub actor : String
  pub targets : List String

-- A time that is zero is `none`.
pub record SpamState : Type 0 where
  pub events : List ℕ
  pub warned : Option ℕ

pub record WarRuntime : Type 0 where
  pub started : ℕ
  pub kicks : ℕ
  pub invites : ℕ
  pub cancels : ℕ
  pub qr_closed : ℕ
  pub rescues : ℕ
  pub failures : ℕ
  pub suspects : List (String × ℕ)
  pub quarantine : List (String × ℕ)

-- A call of the network by a client for a group, or a goroutine that is started.
pub data Call : Type 0 where
  kicks invites cancels : String → String → List String → Call
  gets_chat accepts leaves : String → String → Call
  reissues_ticket opens_ticket closes_ticket joins_by_ticket : String → String → Call
  befriends : String → String → Call
  replies : String → String → String → Call
  waits : ℕ → Call
  reads_text : String → String → Call
  reports : String → String → String → List String → Call
  starts_reconcile starts_recovery : String → Call

-- What the environment does at one moment. `chats` are the members of each chat that is returned and
-- `text` a text that is; `swaps` is how `rand.Shuffle` swaps places; `source`, `written` and `left`
-- are what becomes of the backup's file.
pub record Moment : Type 0 where
  pub now : ℕ
  pub error : Option String
  pub chats : List (List String)
  pub calls : Calls
  pub done : Bool
  pub text : String
  pub swaps : List (ℕ × ℕ)
  pub source : ReadResult
  pub written : Bool
  pub left : Option String

-- `show` is fmt's %d, `sort` is `sort.SliceStable`, `sort_texts` is `sort.Strings`, `split` is
-- `strings.Split` by the separator of MIDs, `trim` is `strings.TrimSpace`,
-- and `duration` is `time.ParseDuration`, in nanoseconds.
pub record Env : Type 0 where
  pub json : Json
  pub search : TextSearch
  pub show : ℕ → String
  pub sort : (String → String → Bool) → List String → List String
  pub sort_texts : List String → List String
  pub split : String → List String
  pub trim : String → String
  pub words : Words
  pub strings : Strings
  pub show_int : ℤ → String
  pub show_duration : ℤ → String
  pub duration : String → Option ℤ
  pub at : ℕ → Moment

pub record Engine : Type 0 where
  pub store : Store
  pub fleet : List (String × BotKind)
  pub members : List (String × List (String × Bool))
  pub pending : List (String × List (String × ℕ))
  pub seen : List (String × ℕ)
  pub defended : List (String × ℕ)
  pub spam : List (String × SpamState)
  pub audit : List (String × List AuditEvent)
  pub war : List (String × WarRuntime)
  pub health : Pool
  pub tick : ℕ
  pub trace : List Call

-- `lineclient.Message` and `lineclient.Operation`, as far as the handlers read them.
pub record Message : Type 0 where
  pub id : String
  pub from : String
  pub to : String
  pub to_type : ℕ
  pub metadata : Metadata

-- A negative type would be none of those that the engine tests for, and a time is not negative.
pub record Operation : Type 0 where
  pub type : ℕ
  pub created_time : ℕ
  pub param1 : String
  pub param2 : String
  pub param3 : String
  pub message : Option Message

abbrev pub M : Type 0 → Type 0
M A = Engine → Engine × A

infixl 5 ◌>>=◌ ◌>>◌
unfoldable pub ◌>>=◌ : {A B : Type 0} → M A → (A → M B) → M B
◌>>=◌ m f e = f (m e).1 (m e).0

abbrev pub ◌>>◌ : {B : Type 0} → M (Unit {0}) → M B → M B
m >> k = m >>= λ _. k

unfoldable pub pure : {A : Type 0} → A → M A
pure a e = (e, a)

-- What is read of the engine.
unfoldable pub gets : {A : Type 0} → (Engine → A) → M A
gets f e = (e, f e)

unfoldable pub modify : (Engine → Engine) → M (Unit {0})
modify f e = (f e, tt)

-- The error of Go that is nil.
abbrev pub nil : Option String
nil = Option.none

module _ (env : Env) where
  unfoldable pub moment : M Moment
  moment e = (record e { tick = suc e.tick }, env.at e.tick)

  unfoldable pub call : Call → M Moment
  call c e = (record e { tick = suc e.tick; trace = c ∷ e.trace }, env.at e.tick)
