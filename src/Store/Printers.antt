-- ===== src/Store/Printers.antt =====
-- src/persist.rs: the files of one printer, and the event log.
use zebra_tamer.Prelude.{String, Bool, false, Option, none, some, List, []}
use zebra_tamer.Prelude.Exec.{Exec}
use zebra_tamer.Model.Job.{DateTime, Uuid, Event}
use zebra_tamer.Model.Media.{MediaState, MediaLedgerEvent}
use zebra_tamer.Store.Files.{
  File, holds, put_file, delete_file, read_or, read_if_exists, append_ndjson, next_sequence,
}
use zebra_tamer.Store.State.{Store, write, at_printer}

unfoldable pub load_media : String → Exec Store (Option MediaState)
unfolding read_if_exists
load_media printer s = (read_if_exists (s.printers printer).media, s)

unfoldable pub save_media : String → MediaState → Exec Store (Unit {0})
save_media printer media =
    write (λ o. at_printer printer (λ d. record d { media = put_file o media d.media }))

unfoldable pub remove_media : String → Exec Store (Unit {0})
remove_media printer =
    write (λ o. at_printer printer (λ d. record d { media = delete_file o d.media }))

unfoldable pub append_media_ledger : String → MediaLedgerEvent → Exec Store (Unit {0})
unfolding append_ndjson
append_media_ledger printer event =
    write (λ o. at_printer printer (λ d. record d { ledger = append_ndjson o event d.ledger }))

unfoldable pub save_queue : String → List Uuid → Exec Store (Unit {0})
save_queue printer queue =
    write (λ o. at_printer printer (λ d. record d { queue = put_file o queue d.queue }))

unfoldable pub load_queue : String → Exec Store (List Uuid)
unfolding read_or
load_queue printer s = (read_or [] (s.printers printer).queue, s)

unfoldable pub save_queue_paused : String → Bool → Exec Store (Unit {0})
save_queue_paused printer paused =
    write
      (λ o. at_printer printer (λ d. record d { queue_paused = put_file o paused d.queue_paused }))

unfoldable pub load_queue_paused : String → Exec Store Bool
unfolding read_or
load_queue_paused printer s = (read_or false (s.printers printer).queue_paused, s)

unfoldable pub append_event : Event → Exec Store (Unit {0})
unfolding append_ndjson
append_event event = write (λ o s. record s { events = append_ndjson o event s.events })

unfoldable pub next_event : DateTime → String → Option String → Option Uuid → String → Store → Event
unfolding next_sequence
next_event now kind printer job data_text s = record {
  sequence = next_sequence s.events;
  at = now;
  kind = kind;
  printer_id = printer;
  job_id = job;
  data_text = data_text;
}

unfoldable pub load_printer_configs : Exec Store (Option (List String))
unfolding read_if_exists
load_printer_configs s = (read_if_exists s.printer_configs, s)

abbrev boot_of : File String → Option String
boot_of (holds boot) = some boot
boot_of _ = none

-- `read_json(&store.boot_id_path()).ok()`.
abbrev pub previous_boot : Store → Option String
previous_boot s = boot_of s.boot_id

unfoldable pub save_boot_id : String → Exec Store (Unit {0})
save_boot_id boot = write (λ o s. record s { boot_id = put_file o boot s.boot_id })
