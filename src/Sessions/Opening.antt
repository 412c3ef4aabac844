-- ===== src/Sessions/Opening.antt =====
-- `SessionService.get_or_open`: which session it returns, in every race.
use goi_mon.Prelude.{
  ℕ, ◌≡◌, refl, Bool, true, ◌&&◌, Option, none, some, List, [], ◌∷◌, ◌++◌, arith, ◌==◌, Result, ok,
  err, Option-cases, inl, inr, ==_refl,
}
use goi_mon.Sql.{select, first}
use goi_mon.Model.{TableSession, Db, is_open}
use goi_mon.Sessions.{
  SessionError, race_recovery_failed, find_open_session, insert_session, new_session, try_insert,
  read_winner, get_or_open,
}

module _ (meanwhile later : Db → Db) (now id table restaurant : ℕ) (by : Option ℕ) (db : Db) where
  abbrev call : Result SessionError TableSession × Db
  call = get_or_open meanwhile later now id table restaurant by db

  abbrev fresh_session : TableSession
  fresh_session = new_session now id table restaurant by

  -- The table's open session is returned, and nothing is written.
  pub get_or_open_found :
      (s : TableSession) → find_open_session table db ≡ some s → call ≡ (ok s, db)
  unfolding get_or_open
  get_or_open_found s e = rw (e, get_or_open)

  pub get_or_open_insert :
      find_open_session table db ≡ none → call ≡ try_insert later fresh_session (meanwhile db)
  unfolding get_or_open
  get_or_open_insert e = rw (e, get_or_open)

first-append :
    (q : TableSession → Bool) (xs : List TableSession) (s : TableSession)
    → first (select q xs) ≡ none
    → q s ≡ true
    → first (select q (xs ++ s ∷ [])) ≡ some s
unfolding select first
first-append q [] s e h = ground arith
first-append q (x ∷ xs) s e h = ground (arith, first-append q xs s)

module _ (later : Db → Db) (s : TableSession) (db : Db) where
  -- The index accepts the row.
  pub try_insert_free :
      find_open_session s.table_id db ≡ none
      → try_insert later s db ≡ (ok s, record db { sessions = db.sessions ++ s ∷ [] })
  unfolding try_insert
  try_insert_free free = rw (free, try_insert)

  insert_taken :
      (o : TableSession) → find_open_session s.table_id db ≡ some o → insert_session s db ≡ none
  unfolding insert_session
  insert_taken o taken = rw (taken, insert_session)

  -- The index refuses it, and the winner's session is read back.
  pub try_insert_lost :
      (o w : TableSession)
      → find_open_session s.table_id db ≡ some o
      → find_open_session s.table_id (later db) ≡ some w
      → try_insert later s db ≡ (ok w, later db)
  try_insert_lost o w taken won =
      unfold try_insert in rw (insert_taken o taken, try_insert, won, read_winner)

  -- The winner's session was closed in the meantime.
  pub try_insert_gone :
      (o : TableSession)
      → find_open_session s.table_id db ≡ some o
      → find_open_session s.table_id (later db) ≡ none
      → try_insert later s db ≡ (err race_recovery_failed, later db)
  try_insert_gone o taken gone =
      unfold try_insert in rw (insert_taken o taken, try_insert, gone, read_winner)

-- What a call has returned, by the database that it leaves: the table's open session, or the report
-- of a race in which the winner's session was closed again.
abbrev pub IsOpening : ℕ → Result SessionError TableSession × Db → Type 0
IsOpening table (ok s, db') = find_open_session table db' ≡ some s
IsOpening table (err e, db') = (e ≡ race_recovery_failed) × (find_open_session table db' ≡ none)

try_insert-IsOpening :
    (later : Db → Db) (now id table restaurant : ℕ) (by : Option ℕ) (db : Db)
    → IsOpening table (try_insert later (new_session now id table restaurant by) db)
unfolding find_open_session new_session
try_insert-IsOpening later now id table restaurant by db =
    elim (Option-cases (find_open_session table db)) [
      | inl free ↦ rw (try_insert_free later (new_session now id table restaurant by) db free) (
          first-append (λ s. s.table_id == table && is_open s.status) db.sessions
            (new_session now id table restaurant by) free (rw (==_refl table)))
      | inr (o, taken) ↦ elim (Option-cases (find_open_session table (later db))) [
        | inl gone ↦
            rw (try_insert_gone later (new_session now id table restaurant by) db o taken gone)
              (refl, gone)
        | inr (w, won) ↦
            rw (try_insert_lost later (new_session now id table restaurant by) db o w taken won) won
      ]
    ]

pub get_or_open-IsOpening :
    (meanwhile later : Db → Db) (now id table restaurant : ℕ) (by : Option ℕ) (db : Db)
    → IsOpening table (get_or_open meanwhile later now id table restaurant by db)
get_or_open-IsOpening meanwhile later now id table restaurant by db =
    elim (Option-cases (find_open_session table db)) [
      | inl free ↦
          rw (get_or_open_insert meanwhile later now id table restaurant by db free)
            (try_insert-IsOpening later now id table restaurant by (meanwhile db))
      | inr (s, e) ↦ rw (get_or_open_found meanwhile later now id table restaurant by db s e) e
    ]
