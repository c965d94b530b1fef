-- ===== src/Api.antt =====
-- src/api.rs: the job list of the API.
pub mod Agent
pub mod Create
pub mod Payload
pub mod Known
pub mod Keeps
pub mod Steps
pub mod Limit
pub mod Entered
pub mod Retry
pub mod Control
pub mod Cancel
pub mod Admin
pub mod Saved
pub mod Pages
use zebra_tamer.Prelude.{
  ℕ, ◌+◌, Bool, true, false, Option, none, some, List, length, leb, if◌then◌else◌, unwrap_or, min,
  max,
}
use zebra_tamer.Prelude.Result.{Result, ok, err}
use zebra_tamer.Model.Job.{Job}
use zebra_tamer.Store.State.{Store}
use zebra_tamer.Store.Paging.{list_jobs_page}

-- The query of a list: `cursor` is 0 if it is left out.
pub record Page : Type 0 where
  pub cursor : ℕ
  pub limit : Option ℕ

-- `unwrap_or(50).clamp(1, 200)`.
unfoldable pub limit_of : Page → ℕ
limit_of p = max 1 (min (unwrap_or p.limit 50) 200)

abbrev pub with_cursor : ℕ → Result (List Job) → Result (List Job × ℕ)
with_cursor cursor (ok items) = ok (items, cursor + length items)
with_cursor cursor (err e) = err e

-- The items and the `next_cursor` of the answer.
unfoldable pub v2_jobs : Page → Store → Result (List Job × ℕ)
unfolding list_jobs_page limit_of
v2_jobs p s = with_cursor p.cursor (list_jobs_page p.cursor (limit_of p) s)
