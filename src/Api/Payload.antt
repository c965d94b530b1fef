-- ===== src/Api/Payload.antt =====
-- src/api.rs: how the payload of a job reaches its place in the data directory.
use zebra_tamer.Prelude.{Bool, true, false, ◌==◌, if◌then◌else◌}
use zebra_tamer.Prelude.Exec.{Exec, ◌>>◌}
use zebra_tamer.Model.Job.{Uuid}
use zebra_tamer.Store.Files.{Outcome, fine, late}
use zebra_tamer.Store.State.{Store, write}

-- A write that puts a file in place, or not.
abbrev appears : Outcome → Uuid → (Uuid → Bool) → Uuid → Bool
appears fine id present k = if k == id then true else present k
appears late id present k = if k == id then true else present k
appears _ id present k = present k

abbrev disappears : Outcome → Uuid → (Uuid → Bool) → Uuid → Bool
disappears fine id present k = if k == id then false else present k
disappears late id present k = if k == id then false else present k
disappears _ id present k = present k

-- Of a payload's file the model keeps whether it is there.
abbrev pub create_part : Uuid → Exec Store (Unit {0})
create_part id = write (λ o s. record s { spool = appears o id s.spool })

-- `write_all`, `sync_all` and `sync_parent`.
abbrev pub unseen : Exec Store (Unit {0})
unseen = write (λ o s. s)

abbrev pub rename_part : Uuid → Exec Store (Unit {0})
rename_part id =
    write (λ o s. record s { payloads = appears o id s.payloads; spool = disappears o id s.spool })

unfoldable pub persist_v2_payload : Uuid → Exec Store (Unit {0})
persist_v2_payload id = create_part id >> (unseen >> (unseen >> (rename_part id >> unseen)))
