-- ===== src/Worker/Delivery.antt =====
-- The delivery loop of `process_job` in src/worker.rs: at most three attempts, and none after a byte
-- has reached the printer.
use zebra_tamer.Prelude.{
  ℕ, zero, suc, ◌+◌, String, Bool, true, ◌||◌, Option, none, some, ltb, leb, ◌==◌, if◌then◌else◌,
}
use zebra_tamer.Model.Job.{Uuid, Job}
use zebra_tamer.Worker.Machine.{
  Link, Written, delivered, failure, ensure_transport, write_file, close,
}

-- `u32::saturating_add(1)`.
abbrev pub saturating_suc32 : ℕ → ℕ
saturating_suc32 n = if leb 4294967295 n then 4294967295 else n + 1

unfoldable pub send : Uuid → Option String × Link → Written × Link
unfolding write_file
send path (none, l) = write_file path l
send path (some e, l) = (failure 0 e, l)

-- One attempt: open the transport if it is not, and write the payload.
unfoldable pub try_write : Uuid → Link → Written × Link
unfolding send ensure_transport
try_write path l = send path (ensure_transport l)

-- A failure is tried again only if no byte was written and it was not the last attempt.
unfoldable pub is_final : ℕ → Written → Bool
is_final left (delivered n) = true
is_final left (failure n e) = ltb 0 n || left == 0

-- The loop over the attempts left; the number is that of attempts made.
unfoldable pub attempts : ℕ → Uuid → Link → Written × Link × ℕ
unfolding is_final
attempts zero path l = (failure 0 "delivery_not_attempted", l, 0)
attempts (suc left) path l =
    let (answer, l') = try_write path l in
    let (later, l'', made) = attempts left path (close l') in
    if is_final left answer then (answer, l', 1) else (later, l'', suc made)

abbrev add_attempts : ℕ → ℕ → ℕ
add_attempts zero n = n
add_attempts (suc k) n = add_attempts k (saturating_suc32 n)

-- `for attempt in 0..3`: without a payload the first round ends the loop.
unfoldable pub deliver : Job → Link → Written × Link × Job
unfolding attempts
deliver job l = elim job.payload_path [
  | none ↦ (
    failure 0 "payload_missing",
    l,
    record job { delivery_attempts = saturating_suc32 job.delivery_attempts },
  )
  | some path ↦
      let (answer, l', made) = attempts 3 path l in
      (answer, l', record job { delivery_attempts = add_attempts made job.delivery_attempts })
]
