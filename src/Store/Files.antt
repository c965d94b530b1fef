-- ===== src/Store/Files.antt =====
-- The files of src/persist.rs as typed values: what a write leaves behind on each of its outcomes.
use zebra_tamer.Prelude.{ℕ, ◌+◌, Bool, true, false, Option, none, some, List, [], ◌∷◌, ◌++◌, length}
use zebra_tamer.Prelude.Result.{Result, ok, err, io}

-- A JSON file: not there, there and not readable as its type, or holding a value.
pub data File (A : Type 0) : Type 0 where
  absent : File A
  corrupt : File A
  holds : A → File A

-- How a write goes. `refused`: an error and nothing changed; `late`: an error after the change took
-- effect; `torn` and `unterminated` (of an appended line): an error after a part of the value, or the
-- whole value without its line end, was written.
pub data Outcome : Type 0 where
  fine refused torn unterminated late : Outcome

abbrev pub reply : Outcome → Result (Unit {0})
reply fine = ok tt
reply _ = err io

-- `atomic_json`: a torn write only reached the temporary file.
abbrev pub put_file : {A : Type 0} → Outcome → A → File A → File A
put_file fine a f = holds a
put_file late a f = holds a
put_file _ a f = f

-- `remove_file`.
abbrev pub delete_file : {A : Type 0} → Outcome → File A → File A
delete_file fine f = absent
delete_file _ f = f

-- `read_json`.
unfoldable pub read_json : {A : Type 0} → File A → Result A
read_json absent = err io
read_json corrupt = err io
read_json (holds a) = ok a

-- `if p.exists() { Ok(Some(read_json(&p)?)) } else { Ok(None) }`.
unfoldable pub read_if_exists : {A : Type 0} → File A → Result (Option A)
read_if_exists absent = ok none
read_if_exists corrupt = err io
read_if_exists (holds a) = ok (some a)

-- `if p.exists() { read_json(&p) } else { Ok(default) }`.
unfoldable pub read_or : {A : Type 0} → A → File A → Result A
read_or d absent = ok d
read_or d corrupt = err io
read_or d (holds a) = ok a

-- A line of an NDJSON file: a value, or text that does not parse as one.
pub data Line (A : Type 0) : Type 0 where
  whole : A → Line A
  broken : Line A

-- An NDJSON file; `open_end` says that its last line has no line end yet.
pub record Log (A : Type 0) : Type 0 where
  pub lines : List (Line A)
  pub open_end : Bool

-- What is appended behind a line without an end joins that line, which then no longer parses.
glue : {A : Type 0} → List (Line A) → List (Line A)
glue [] = broken ∷ []
glue (l ∷ []) = broken ∷ []
glue (l ∷ k ∷ ls) = l ∷ glue (k ∷ ls)

add_line : {A : Type 0} → Bool → List (Line A) → Line A → List (Line A)
unfolding glue
add_line true ls l = glue ls
add_line false ls l = ls ++ (l ∷ [])

-- `append_ndjson`.
unfoldable pub append_ndjson : {A : Type 0} → Outcome → A → Log A → Log A
unfolding add_line
append_ndjson refused a f = f
append_ndjson torn a f = record { lines = add_line f.open_end f.lines broken; open_end = true }
append_ndjson unterminated a f = record {
  lines = add_line f.open_end f.lines (whole a);
  open_end = true;
}
append_ndjson _ a f = record { lines = add_line f.open_end f.lines (whole a); open_end = false }

-- `next_sequence`: one more than the lines of the file, broken ones counted.
unfoldable pub next_sequence : {A : Type 0} → Log A → ℕ
next_sequence f = length f.lines + 1
