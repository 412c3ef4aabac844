-- ===== src/Invariant/Sessions.antt =====
-- The invariant of the sessions under updates and under `get_or_open`.
use goi_mon.Prelude.{
  ℕ, ◌≤◌, ◌≡◌, refl, Bool, true, Option, none, List, [], ◌∷◌, ◌++◌, arith, ◌==◌, length,
  Option-cases, Bool-cases, inl, inr, eq_of_==, All-append,
}
use goi_mon.Sql.{select, update, first}
use goi_mon.Sql.Rows.{All-update, length-select-update, length-select-append, length-select-none}
use goi_mon.Sql.Keyed.{find, update-IsKeyed, append-IsKeyed}
use goi_mon.Model.{TableSession, Db, is_open, session_key, find_session, find_order}
use goi_mon.Items.{set_activity, touch_order_session, order_session_is}
use goi_mon.Calls.{touch_session}
use goi_mon.Sessions.{find_open_session, new_session, try_insert, get_or_open}
use goi_mon.Sessions.Opening.{
  get_or_open_found, get_or_open_insert, try_insert_free, try_insert_lost, try_insert_gone,
}
use goi_mon.Invariant.{open_at, IsUnbilled, SessionsValid}

-- A rewriting that opens nothing, moves nothing and bills nothing that is not closed.
pub record IsHarmless (f : TableSession → TableSession) : Type 0 where
  pub same_id : (s : TableSession) → (f s).id ≡ s.id
  pub same_table : (s : TableSession) → (f s).table_id ≡ s.table_id
  pub opens_none : (s : TableSession) → is_open (f s).status ≡ true → is_open s.status ≡ true
  pub bills_none : (s : TableSession) → IsUnbilled s → IsUnbilled (f s)

pub update-SessionsValid :
    (p : TableSession → Bool) (f : TableSession → TableSession) (xs : List TableSession)
    → IsHarmless f
    → SessionsValid xs
    → SessionsValid (update p f xs)
update-SessionsValid p f xs h v = record {
  keyed = update-IsKeyed session_key p f xs h.same_id v.keyed;
  one_open =
      λ t. omega (arith, length-select-update (open_at t) p f xs (still_open t), v.one_open t);
  unbilled =
      All-update IsUnbilled IsUnbilled p f xs (λ x u _. h.bills_none x u) (λ x u _. u) v.unbilled;
}
  where
    still_open :
        (t : ℕ) (x : TableSession) → p x ≡ true → open_at t (f x) ≡ true → open_at t x ≡ true
    still_open t x _ o = ground (arith, h.same_table x, h.opens_none x)

set_activity-IsHarmless : (now : ℕ) → IsHarmless (set_activity now)
set_activity-IsHarmless now = record {
  same_id = λ s. refl;
  same_table = λ s. refl;
  opens_none = λ s h. h;
  bills_none = λ s u. u;
}

pub touch_order_session-valid :
    (now k : ℕ) (db : Db)
    → SessionsValid db.sessions
    → SessionsValid (touch_order_session now k db).sessions
unfolding touch_order_session
touch_order_session-valid now k db v =
    update-SessionsValid (order_session_is (find_order k db)) (set_activity now) db.sessions
      (set_activity-IsHarmless now) v

pub touch_session-valid :
    (now k : ℕ) (db : Db)
    → SessionsValid db.sessions
    → SessionsValid (touch_session now k db).sessions
unfolding touch_session
touch_session-valid now k db v =
    update-SessionsValid (λ s. s.id == k) (set_activity now) db.sessions
      (set_activity-IsHarmless now) v

length-open-append :
    (t : ℕ) (xs : List TableSession) (s : TableSession)
    → first (select (open_at s.table_id) xs) ≡ none
    → length (select (open_at t) xs) ≤ 1
    → length (select (open_at t) (xs ++ s ∷ [])) ≤ 1
unfolding select
length-open-append t xs s free le = elim (Bool-cases (s.table_id == t)) [
  | inl same ↦
      rw
        (
          length-select-append (open_at t) xs (s ∷ []),
          ← eq_of_== s.table_id t same,
          length-select-none (open_at s.table_id) xs free,
        )
        (ground arith)
  | inr other ↦ rw (length-select-append (open_at t) xs (s ∷ []), other) (omega arith)
]

-- The index lets an open session in only where the table has none.
pub append-SessionsValid :
    (s : TableSession) (xs : List TableSession)
    → find session_key s.id xs ≡ none
    → s.total_amount ≡ none
    → first (select (open_at s.table_id) xs) ≡ none
    → SessionsValid xs
    → SessionsValid (xs ++ s ∷ [])
append-SessionsValid s xs fresh unpaid free v = record {
  keyed = append-IsKeyed session_key s xs fresh v.keyed;
  one_open = λ t. length-open-append t xs s free (v.one_open t);
  unbilled = All-append IsUnbilled xs (s ∷ []) v.unbilled ((λ _. unpaid), tt);
}

pub try_insert-valid :
    (later : Db → Db) (s : TableSession) (db : Db)
    → ((db : Db) → SessionsValid db.sessions → SessionsValid (later db).sessions)
    → find_session s.id db ≡ none
    → s.total_amount ≡ none
    → SessionsValid db.sessions
    → SessionsValid (try_insert later s db).1.sessions
unfolding find_open_session
try_insert-valid later s db keeps fresh unpaid v =
    elim (Option-cases (find_open_session s.table_id db)) [
      | inl free ↦
          rw (try_insert_free later s db free)
            (append-SessionsValid s db.sessions fresh unpaid free v)
      | inr (o, taken) ↦ elim (Option-cases (find_open_session s.table_id (later db))) [
        | inl gone ↦ rw (try_insert_gone later s db o taken gone) (keeps db v)
        | inr (w, won) ↦ rw (try_insert_lost later s db o w taken won) (keeps db v)
      ]
    ]

-- If what other transactions commit meanwhile keeps the session invariant and the new id is
-- fresh, then opening a session keeps it too: unique ids, at most one open session per table, no
-- total on a session that is not closed.
pub get_or_open-valid :
    (meanwhile later : Db → Db) (now id table restaurant : ℕ) (by : Option ℕ) (db : Db)
    → ((db : Db) → SessionsValid db.sessions → SessionsValid (meanwhile db).sessions)
    → ((db : Db) → SessionsValid db.sessions → SessionsValid (later db).sessions)
    → find_session id (meanwhile db) ≡ none
    → SessionsValid db.sessions
    → SessionsValid (get_or_open meanwhile later now id table restaurant by db).1.sessions
unfolding new_session
get_or_open-valid meanwhile later now id table restaurant by db keeps keeps' fresh v =
    elim (Option-cases (find_open_session table db)) [
      | inl free ↦ rw (get_or_open_insert meanwhile later now id table restaurant by db free) (
          try_insert-valid later (new_session now id table restaurant by) (meanwhile db) keeps'
            fresh refl (keeps db v))
      | inr (s, e) ↦ rw (get_or_open_found meanwhile later now id table restaurant by db s e) v
    ]
