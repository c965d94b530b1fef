-- ===== src/Api/Steps.antt =====
-- What the steps of storing a job (src/api.rs) leave alone.
use zebra_tamer.Prelude.{ℕ, String, ◌≡◌, refl, Option, none, some, arith}
use zebra_tamer.Prelude.Result.{Result, ok, err}
use zebra_tamer.Prelude.Exec.{Exec, continue, ◌>>◌}
use zebra_tamer.Model.Job.{DateTime, Uuid}
use zebra_tamer.Model.Media.{MediaState}
use zebra_tamer.Store.Files.{File}
use zebra_tamer.Store.State.{Store}
use zebra_tamer.Store.Printers.{save_queue}
use zebra_tamer.Driver.{DeviceProfile}
use zebra_tamer.Worker.Process.{StorageMode}
use zebra_tamer.Worker.Queue.{Worker, enqueue, receive}
use zebra_tamer.Api.Payload.{create_part, rename_part, unseen, persist_v2_payload}
use zebra_tamer.Api.Agent.{Agent, Handle, send_command}

-- The files of the jobs and of the printers are as they were.
pub record IsAlike (s s' : Store) : Type 0 where
  pub jobs : s'.jobs ≡ s.jobs
  pub printers : s'.printers ≡ s.printers

abbrev IsQuiet : {A : Type 0} → Exec Store A → Type 0
IsQuiet action = (s t : Store) → IsAlike s t → IsAlike s (action t).1

continue-IsAlike :
    {A B : Type 0} (s : Store) (r : Result A) (next : A → Exec Store B) (t : Store)
    → IsAlike s t
    → ((a : A) → IsAlike s (next a t).1)
    → IsAlike s (continue r next t).1
continue-IsAlike s (ok a) next t h k = k a
continue-IsAlike s (err e) next t h k = h

then-IsQuiet :
    (first second : Exec Store (Unit {0}))
    → IsQuiet first
    → IsQuiet second
    → IsQuiet (first >> second)
then-IsQuiet first second f g s t h =
    continue-IsAlike s (first t).0 (λ _. second) (first t).1 (f s t h)
      (λ _. g s (first t).1 (f s t h))

unseen-IsQuiet : IsQuiet unseen
unseen-IsQuiet s t h = record { jobs = h.jobs; printers = h.printers }

pub persist_v2_payload-IsAlike : (id : Uuid) (s : Store) → IsAlike s (persist_v2_payload id s).1
unfolding persist_v2_payload
persist_v2_payload-IsAlike id s =
    then-IsQuiet (create_part id) _ (λ s t h. record { jobs = h.jobs; printers = h.printers })
      (then-IsQuiet unseen _ unseen-IsQuiet (
        then-IsQuiet unseen _ unseen-IsQuiet (
          then-IsQuiet (rename_part id) unseen
            (λ s t h. record { jobs = h.jobs; printers = h.printers }) unseen-IsQuiet)))
      s s (record { jobs = refl; printers = refl })

-- The medium of every printer, and the profile of every worker.
abbrev pub media_of : Agent → String → File MediaState
media_of s printer = (s.store.printers printer).media

abbrev pub profile_of : Option Handle → Option DeviceProfile
profile_of none = none
profile_of (some h) = some h.profile

module _ (bytes_json : ℕ → String) (now : DateTime) (storage : StorageMode) (printer : String) where
  pub enqueue-alike :
      (id : Uuid) (w : Worker) (s : Agent)
      → let s' = (send_command bytes_json now storage printer (enqueue id) w s).1 in
        (s'.store.jobs ≡ s.store.jobs)
        × ((k : String) → media_of s' k ≡ media_of s k)
        × ((k : String) → profile_of (s'.workers k) ≡ profile_of (s.workers k))
  unfolding send_command receive save_queue
  enqueue-alike id w s = (ground arith, λ k. ground arith, λ k. ground arith)
