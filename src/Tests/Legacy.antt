-- ===== src/Tests/Legacy.antt =====
-- Requests to `create_job` of src/api.rs.
use zebra_tamer.Prelude.{◌≤◌, ◌≡◌, ◌≢◌, refl, String, false, Option, none, some, List, [], ◌∷◌}
use zebra_tamer.Prelude.Text.{Bytes, codes}
use zebra_tamer.Prelude.Result.{io}
use zebra_tamer.Model.Job.{Job, queued}
use zebra_tamer.Store.Jobs.{count_active_jobs}
use zebra_tamer.Protocol.{parse_u64}
use zebra_tamer.Transport.{Chunk, piece}
use zebra_tamer.Worker.Process.{full}
use zebra_tamer.Worker.Queue.{receive}
use zebra_tamer.Store.Printers.{save_queue}
use zebra_tamer.Api.Agent.{Agent, Answer, done, problem}
use zebra_tamer.Legacy.{Submission, chunk, broken, job_too_large, internal}
use zebra_tamer.Legacy.ParsePq.{parse_pq}
use zebra_tamer.Legacy.Numbers.{IsNumbered, read_content, parse_pq_lem, parse_pq-cut}
use zebra_tamer.Legacy.Create.{create_job}
use zebra_tamer.Legacy.Goes.{Goes}
use zebra_tamer.Legacy.Settled.{Settles}
use zebra_tamer.Legacy.Answered.{queue_at, create_job_lem, create_job-limit}
use zebra_tamer.Store.Files.{holds}
use zebra_tamer.Auth.{Tokens, admin, authorized}
use zebra_tamer.Media.Operations.{fresh_state}
use zebra_tamer.Legacy.Elsewhere.{IsElsewhere}
use zebra_tamer.Legacy.Requests.{to_put, after_request, after_request_lem}
use zebra_tamer.Tests.Data.{bytes_json, digest, labels}
use zebra_tamer.Tests.Driver.{parse, decode}
use zebra_tamer.Tests.Api.{agent, three_active}

abbrev sha256_hex : Bytes → String
sha256_hex content = "ab"

-- A file in one piece.
abbrev chunks : Bytes → Option (List Chunk)
chunks content = some (piece content ∷ [])

abbrev driver_of : String → String
driver_of printer = "zpl"

abbrev submission : Submission
submission = record {
  content_type = codes "application/zpl; charset=utf-8";
  idempotency_key = some "n";
  label_count = none;
  origin = none;
  description = none;
  body = chunk (codes "^XA^P") ∷ chunk (codes "Q3^XZ") ∷ [];
}

abbrev submit : Submission → Agent → Answer Job × Agent
submit request =
    create_job parse decode sha256_hex chunks driver_of bytes_json bytes_json full 4 10 30 9 "p1"
      request

abbrev job : Job
job = record {
  id = 9;
  printer_id = "p1";
  state = queued;
  created_at = 30;
  updated_at = 30;
  label_count = some 3;
  label_count_source = some "zpl_pq_best_effort";
  origin = none;
  description = none;
  idempotency_key = some "n";
  sha256 = some "ab";
  bytes = 10;
  bytes_transferred = 0;
  delivery_attempts = 0;
  payload_path = some 9;
  error = none;
}

-- The document is as long as it may be.
accepts_job : (submit submission agent).0 ≡ done job
unfolding create_job save_queue receive
accepts_job = refl

answers_again : (submit submission (submit submission agent).1).0 ≡ done job
unfolding create_job save_queue receive
answers_again = refl

refuses_more :
    (submit (record submission { body = chunk (codes "^XA^PQ3^XZ\n") ∷ [] }) agent).0
    ≡ problem job_too_large
unfolding create_job
refuses_more = refl

reports_failure :
    (submit (record submission { body = chunk (codes "^XA") ∷ broken io ∷ [] }) agent).0
    ≡ problem (internal io)
unfolding create_job
reports_failure = refl

create_job_lem_example :
    Goes 9 "p1" agent.store.jobs
      (Settles 9 "p1" (some "n") 4 agent.store.jobs (queue_at (agent.workers "p1")))
      (submit submission agent)
create_job_lem_example =
    create_job_lem parse decode sha256_hex chunks driver_of bytes_json bytes_json full 4 10 30 9
      "p1" submission agent (refl, (refl, (refl, tt))) refl

create_job-limit_example :
    let s' = (submit submission agent).1 in
    (count_active_jobs "p1" s'.store.jobs ≤ 4)
    × ((other : String)
        → "p1" ≢ other
        → count_active_jobs other s'.store.jobs ≡ count_active_jobs other agent.store.jobs)
create_job-limit_example =
    create_job-limit parse decode sha256_hex chunks driver_of bytes_json bytes_json full 4 10 30 9
      "p1" submission agent (refl, (refl, (refl, tt))) refl three_active

abbrev pieces : List Chunk
pieces = piece (codes "^XA^P") ∷ piece (codes "Q12^XZ") ∷ []

finds_number : parse_pq (some pieces) ≡ some 12
unfolding parse_pq
finds_number = refl

parse_pq_lem_example :
    (digits : Bytes) × IsNumbered (read_content pieces) digits × (parse_u64 digits ≡ some 12)
parse_pq_lem_example = parse_pq_lem pieces 12 finds_number

parse_pq-cut_example :
    parse_pq (some (piece (codes "^PQ1") ∷ piece (codes "2^XZ") ∷ [])) ≡ parse_u64 (codes "1")
parse_pq-cut_example = parse_pq-cut 49 [] (piece (codes "2^XZ") ∷ []) (refl, tt)

abbrev tokens : Tokens
tokens = record {
  read_token = none;
  print_token = none;
  admin_token = some (codes "admin-admin-admin-admin-1");
}

abbrev header : Option Bytes
header = some (codes "Bearer admin-admin-admin-admin-1")

loads_roll :
    ((after_request tokens digest 30 header "p1" (to_put labels) agent).store.printers "p1").media
    ≡ holds (fresh_state 30 labels)
unfolding after_request fresh_state
loads_roll = refl

after_request_lem_example :
    let s' = after_request tokens digest 30 header "p1" (to_put labels) agent in
    IsElsewhere "p1" agent.store s'.store
    × (authorized tokens header admin ≡ false → s' ≡ agent)
    × (tokens.admin_token ≡ none → s' ≡ agent)
after_request_lem_example = after_request_lem tokens digest 30 header "p1" (to_put labels) agent
