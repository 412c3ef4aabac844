-- ===== src/Invariant.antt =====
-- What the schema and the services keep true of every database: unique primary keys, the index
-- uq_one_open_session_per_table, and a total on closed sessions only.
pub mod Sessions
pub mod Closing
pub mod Items
pub mod Runs
use goi_mon.Prelude.{ℕ, ◌≤◌, ◌≡◌, ◌≢◌, Bool, ◌&&◌, Option, none, List, ◌==◌, All, length}
use goi_mon.Sql.{select}
use goi_mon.Sql.Keyed.{IsKeyed}
use goi_mon.Model.{TableSession, Db, SessionStatus, closed, is_open, session_key, item_key}

abbrev pub open_at : ℕ → TableSession → Bool
open_at t s = s.table_id == t && is_open s.status

abbrev pub IsUnbilled : TableSession → Type 0
IsUnbilled s = s.status ≢ closed → s.total_amount ≡ none

pub record SessionsValid (xs : List TableSession) : Type 0 where
  pub keyed : IsKeyed session_key xs
  pub one_open : (t : ℕ) → length (select (open_at t) xs) ≤ 1
  pub unbilled : All IsUnbilled xs

pub record IsValid (db : Db) : Type 0 where
  pub sessions : SessionsValid db.sessions
  pub items : IsKeyed item_key db.items
