-- ===== src/Api/Agent.antt =====
-- src/api.rs: what a handler of the second API works on, and how it answers. One request is handled
-- at a time, with one reading of the clock.
use zebra_tamer.Prelude.{
  ℕ, String, true, false, Option, none, some, List, [], ◌∷◌, str_eq, if◌then◌else◌,
}
use zebra_tamer.Prelude.Result.{Result, ok, err, Error, message}
use zebra_tamer.Prelude.Text.{Bytes}
use zebra_tamer.Prelude.Exec.{Exec}
use zebra_tamer.Model.Job.{DateTime}
use zebra_tamer.Store.State.{Store}
use zebra_tamer.Driver.{DeviceProfile}
use zebra_tamer.Auth.{Access, Tokens, authorized}
use zebra_tamer.Worker.Queue.{Worker, Command, with_store, receive}
use zebra_tamer.Worker.Process.{StorageMode}

-- `V2Error` without its details, which are always empty.
pub record V2Error : Type 0 where
  pub status : ℕ
  pub code : String
  pub text : Error

abbrev pub bad_request : Error → V2Error
bad_request e = record { status = 400; code = "invalid_request"; text = e }

abbrev pub not_found : String → V2Error
not_found m = record { status = 404; code = "not_found"; text = message m }

abbrev pub internal_error : Error → V2Error
internal_error e = record { status = 500; code = "internal_error"; text = e }

abbrev pub unauthorized : V2Error
unauthorized = record {
  status = 401;
  code = "unauthorized";
  text = message "A valid ZebraTamer bearer token is required";
}

pub data Answer (A : Type 0) : Type 0 where
  done : A → Answer A
  problem : V2Error → Answer A

-- What becomes of a command for a worker: its channel has no room, the thread has stopped before it
-- came to the command, or the command is handled.
pub data Mail : Type 0 where
  handled full stopped : Mail

-- A running worker with its printer's profile. The store of the worker's machine is the agent's, and
-- is put in place whenever the worker runs.
pub record Handle : Type 0 where
  pub profile : DeviceProfile
  pub worker : Worker

-- `AppState`; `mail` says how the coming commands fare.
pub record Agent : Type 0 where
  pub store : Store
  pub workers : String → Option Handle
  pub mail : List Mail

abbrev pub Handler : Type 0 → Type 0
Handler A = Agent → Answer A × Agent

module _ {A B : Type 0} where
  abbrev pub continue : Answer A → (A → Handler B) → Handler B
  continue (problem e) next s = (problem e, s)
  continue (done a) next s = next a s

  infixl 10 ◌>>=◌ ◌>>◌
  abbrev pub ◌>>=◌ : Handler A → (A → Handler B) → Handler B
  ◌>>=◌ action next s = let (answer, after) = action s in continue answer next after

  abbrev pub ◌>>◌ : Handler A → Handler B → Handler B
  first >> second = first >>= λ _. second

abbrev pub answer : {A : Type 0} → Answer A → Handler A
answer a s = (a, s)

-- `map_err` on a result, and on an option.
abbrev pub or_error : {A : Type 0} → (Error → V2Error) → Result A → Answer A
or_error f (ok a) = done a
or_error f (err e) = problem (f e)

abbrev pub or_problem : {A : Type 0} → Option A → V2Error → Answer A
or_problem (some a) e = done a
or_problem none e = problem e

-- An operation of the store whose error is an internal one.
abbrev pub stored : {A : Type 0} → Exec Store A → Handler A
stored action s =
    let (r, after) = action s.store in (or_error internal_error r, record s { store = after })

unfoldable pub v2_authorize : Tokens → Option Bytes → Access → Answer (Unit {0})
unfolding authorized
v2_authorize config header access = elim (authorized config header access) [
  | true ↦ done tt
  | false ↦ problem unauthorized
]

abbrev pub head_mail : List Mail → Mail
head_mail [] = handled
head_mail (m ∷ ms) = m

abbrev pub tail_mail : List Mail → List Mail
tail_mail [] = []
tail_mail (m ∷ ms) = ms

abbrev pub put_worker : String → Worker → (String → Option Handle) → String → Option Handle
put_worker id w workers k = elim (workers k) [
  | none ↦ none
  | some h ↦ if str_eq k id then some (record h { worker = w }) else some h
]

module _ (bytes_json : ℕ → String) (now : DateTime) (storage : StorageMode) where
  unfoldable pub after_command :
      String → Result (Unit {0}) × Worker → Agent → Result (Unit {0}) × Agent
  after_command printer (r, w) s =
      (r, record s { store = w.machine.store; workers = put_worker printer w s.workers })

  unfoldable pub delivered_by : Mail → String → Command → Worker → Agent → Result (Unit {0}) × Agent
  unfolding after_command receive
  delivered_by full printer command w s = (err (message "worker_queue_full"), s)
  delivered_by stopped printer command w s = (err (message "worker_stopped"), s)
  delivered_by handled printer command w s =
      after_command printer (receive bytes_json now storage printer command (with_store s.store w))
        s

  -- `enqueue`, `set_queue_paused` and `cancel` of a handle: the command, and the reply to it.
  unfoldable pub send_command : String → Command → Worker → Agent → Result (Unit {0}) × Agent
  unfolding delivered_by
  send_command printer command w s =
      delivered_by (head_mail s.mail) printer command w (record s { mail = tail_mail s.mail })
