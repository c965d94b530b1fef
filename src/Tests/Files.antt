-- ===== src/Tests/Files.antt =====
-- A write of a flag through `atomic_json` of src/persist.rs.
use zebra_tamer.Prelude.{
  ◌≡◌, refl, Bool, true, false, Option, none, some, ◌==◌, length, if◌then◌else◌,
}
use zebra_tamer.Prelude.Text.{Bytes, codes}
use zebra_tamer.Store.Atomic.{Folder, went, stops, some_of, none_of, Steps, atomic_json, died}
use zebra_tamer.Store.Refines.{IsPut, atomic_json-refines}

abbrev encode : Bool → Bytes
encode true = codes "true"
encode false = codes "false"

abbrev decode : Bytes → Option Bool
decode bytes =
    if length bytes == 5 then some true else if length bytes == 6 then some false else none

abbrev before : Folder
before = record { target = some (codes "false\n"); temporary = none }

-- The disk is full while the JSON is written, and the process dies before it can clean up.
abbrev unlucky : Steps
unlucky = record {
  create_folder = went;
  open_new = went;
  write_json = stops (some_of 2) true;
  write_newline = went;
  sync_file = went;
  rename_file = went;
  sync_folder = went;
  remove_file = stops none_of false;
}

left_behind :
    atomic_json unlucky (encode true) before
    ≡ (died, record { target = some (codes "false\n"); temporary = some (codes "tr") })
unfolding atomic_json
left_behind = refl

atomic_json-refines_example :
    IsPut decode true before.target (atomic_json unlucky (encode true) before)
atomic_json-refines_example = atomic_json-refines encode decode unlucky true before refl
