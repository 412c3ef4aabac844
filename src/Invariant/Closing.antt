-- ===== src/Invariant/Closing.antt =====
-- The invariant under `checkout` and `restore`.
use goi_mon.Prelude.{
  ℕ, ◌≡◌, ◌≢◌, refl, ap, sym, Bool, true, ◌&&◌, Option, none, some, List, arith, ◌==◌, length,
  Option-cases, Bool-cases, inl, inr, eq_of_==,
}
use goi_mon.Sql.{select, update, first}
use goi_mon.Sql.Rows.{All-update, All-and, length-select-none, length-select-update}
use goi_mon.Sql.Keyed.{find, update-IsKeyed, find-All, length-select-swap, kept-some}
use goi_mon.Model.{TableSession, Db, closed, is_abandoned, session_key, item_key, find_session}
use goi_mon.Items.{cancel_row}
use goi_mon.Sessions.{find_open_session, set_total, served_total}
use goi_mon.Sessions.Settle.{settled}
use goi_mon.Sessions.Closing.{at_session, closing, candidate, found_closed}
use goi_mon.Sessions.Checkout.{close_row, checkout}
use goi_mon.Sessions.Checkout.Bills.{own_open, checkout_soft, checkout_lem}
use goi_mon.Sessions.Restore.{
  reopen_row, may_restore, reopen, direct_checkout, restore_path, restore, restore_found,
  restore_row, is_too_old,
}
use goi_mon.Sessions.Restore.Outcomes.{
  own_abandoned, direct_checkout_lost, direct_checkout_lem, reopen_lost, reopen_lem, reopen_refused,
  restore-row, own,
}
use goi_mon.Invariant.{open_at, IsUnbilled, SessionsValid, IsValid}
use goi_mon.Invariant.Sessions.{IsHarmless, update-SessionsValid}

close_row-IsHarmless : (now : ℕ) → IsHarmless (close_row now)
unfolding close_row
close_row-IsHarmless now = record {
  same_id = λ s. refl;
  same_table = λ s. refl;
  opens_none = λ s h. cc;
  bills_none = λ s u ne. absurd (ne refl);
}

-- A total may be stored on a closed session.
set_total-valid :
    (sid total : ℕ) (xs : List TableSession) (s : TableSession)
    → find session_key sid xs ≡ some s
    → s.status ≡ closed
    → SessionsValid xs
    → SessionsValid (update (λ x. x.id == sid) (set_total total) xs)
set_total-valid sid total xs s e shut v = record {
  keyed = update-IsKeyed session_key (λ x. x.id == sid) (set_total total) xs (λ x. refl) v.keyed;
  one_open = λ t. omega (
    arith,
    length-select-update (open_at t) (λ x. x.id == sid) (set_total total) xs (λ x _ o. o),
    v.one_open t,
  );
  unbilled =
      All-update (λ x. IsUnbilled x × (x.id ≡ sid → x.status ≡ closed)) IsUnbilled
        (λ x. x.id == sid) (set_total total) xs
        (λ x p hit ne. absurd (ne (p.1 (eq_of_== x.id sid hit)))) (λ x p miss. p.0)
        (All-and IsUnbilled (λ x. x.id ≡ sid → x.status ≡ closed) xs v.unbilled
          (find-All session_key (λ x. x.status ≡ closed) sid xs s v.keyed e shut));
}

-- A session that is closed under a test and settled.
settled-IsValid :
    (q : TableSession → Bool) (now sid rid : ℕ) (db : Db) (s : TableSession)
    → find_session sid db ≡ some s
    → q s ≡ true
    → IsValid db
    → IsValid (settled now sid rid (closing q now sid rid db))
unfolding close_row
settled-IsValid q now sid rid db s e pass v = record {
  sessions =
      set_total-valid sid (served_total sid (closing q now sid rid db))
        (closing q now sid rid db).sessions (close_row now s)
        (found_closed q now sid rid db s e pass) refl
        (update-SessionsValid (at_session q now sid rid db) (close_row now) db.sessions
          (close_row-IsHarmless now) v.sessions);
  items = update-IsKeyed item_key _ _ db.items (λ x. unfold cancel_row in refl) v.items;
}

-- A checkout keeps the invariant of the database: unique ids of sessions and items, at most one
-- open session per table, and a total on closed sessions only.
pub checkout-IsValid :
    (now sid rid : ℕ) (db : Db) → IsValid db → IsValid (checkout now sid rid db).1
checkout-IsValid now sid rid db v = elim (Option-cases (candidate (own_open rid) now sid rid db)) [
  | inl lost ↦ rw (checkout_soft now sid rid db v.sessions.keyed lost) v
  | inr (s, h) ↦
      let (e, pass) = kept-some session_key (own_open rid) (find_session sid db) s h in
      rw (checkout_lem now sid rid db v.sessions.keyed s e pass)
        (settled-IsValid (own_open rid) now sid rid db s e pass v)
]

direct_checkout-IsValid :
    (now sid rid : ℕ) (db : Db) → IsValid db → IsValid (direct_checkout now sid rid db).1
direct_checkout-IsValid now sid rid db v =
    elim (Option-cases (candidate (own_abandoned rid) now sid rid db)) [
      | inl lost ↦ rw (direct_checkout_lost now sid rid db v.sessions.keyed lost) v
      | inr (s, h) ↦
          let (e, pass) = kept-some session_key (own_abandoned rid) (find_session sid db) s h in
          rw (direct_checkout_lem now sid rid db v.sessions.keyed s e pass)
            (settled-IsValid (own_abandoned rid) now sid rid db s e pass v)
    ]

-- An abandoned session may be opened again where its table has no open session.
reopened-valid :
    (now sid rid : ℕ) (xs : List TableSession) (s : TableSession)
    → find session_key sid xs ≡ some s
    → first (select (open_at s.table_id) xs) ≡ none
    → SessionsValid xs
    → SessionsValid (update (λ x. x.id == sid && own_abandoned rid x) (reopen_row now) xs)
unfolding reopen_row
reopened-valid now sid rid xs s e free v = record {
  keyed =
      update-IsKeyed session_key (λ x. x.id == sid && own_abandoned rid x) (reopen_row now) xs
        (λ x. refl) v.keyed;
  one_open = λ t. ground (
    arith,
    length-select-swap session_key (open_at t) (own_abandoned rid) (reopen_row now) sid xs s v.keyed
        e,
    v.one_open t,
    length-select-none (open_at s.table_id) xs free,
    same t,
  );
  unbilled =
      All-update IsUnbilled IsUnbilled (λ x. x.id == sid && own_abandoned rid x) (reopen_row now) xs
        (λ x u hit _. u (not_closed x hit)) (λ x u _. u) v.unbilled;
}
  where
    not_closed :
        (x : TableSession) → (x.id == sid && own_abandoned rid x) ≡ true → x.status ≢ closed
    not_closed x hit = ground arith

    same :
        (t : ℕ)
        → (s.table_id == t) ≡ true
        → length (select (open_at t) xs) ≡ length (select (open_at s.table_id) xs)
    same t h = ap (λ k. length (select (open_at k) xs)) (sym (eq_of_== s.table_id t h))

reopen-IsValid : (now sid rid : ℕ) (db : Db) → IsValid db → IsValid (reopen now sid rid db).1
unfolding may_restore
reopen-IsValid now sid rid db v =
    elim (Option-cases (candidate (own_abandoned rid) now sid rid db)) [
      | inl lost ↦ rw (reopen_lost now sid rid db v.sessions.keyed lost) v
      | inr (s, h) ↦
          let (e, pass) = kept-some session_key (own_abandoned rid) (find_session sid db) s h in
          elim (Option-cases (find_open_session s.table_id db)) [
            | inl free ↦ rw (reopen_lem now sid rid db v.sessions.keyed s e pass free) (record {
              sessions =
                  reopened-valid now sid rid db.sessions s e (unfold find_open_session in free)
                    v.sessions;
              items = v.items;
            })
            | inr (o, taken) ↦
                rw (reopen_refused now sid rid db v.sessions.keyed s o e pass taken) v
          ]
    ]

pub restore_path-IsValid :
    (o : Option TableSession) (now sid rid : ℕ) (db : Db)
    → IsValid db
    → IsValid (restore_path o now sid rid db).1
unfolding restore_path
restore_path-IsValid none now sid rid db v = reopen-IsValid now sid rid db v
restore_path-IsValid (some o) now sid rid db v = direct_checkout-IsValid now sid rid db v

module _ (meanwhile : Db → Db) (keeps : (db : Db) → IsValid db → IsValid (meanwhile db))
    (now clock sid rid : ℕ) (db : Db) (v : IsValid db) where
  restore_found-IsValid :
      (s : TableSession) (o : Option ℕ)
      → IsValid (restore_found meanwhile now clock sid rid s o db).1
  unfolding restore_found
  restore_found-IsValid s none = v
  restore_found-IsValid s (some t) = elim (Bool-cases (is_too_old clock t)) [
    | inl old ↦ rw old v
    | inr young ↦ rw young (
        restore_path-IsValid (find_open_session s.table_id db) now sid rid (meanwhile db)
          (keeps db v))
  ]

  restore_row-IsValid :
      (o : Option TableSession) → IsValid (restore_row meanwhile now clock sid rid o db).1
  restore_row-IsValid none = unfold restore_row in v
  restore_row-IsValid (some s) = elim (Bool-cases (is_abandoned s.status)) [
    | inl gone ↦ unfold restore_row in rw gone (restore_found-IsValid s s.abandoned_at)
    | inr other ↦ unfold restore_row in rw other v
  ]

  -- If what other transactions commit meanwhile keeps the invariant of the database, then
  -- restoring a session keeps it on every one of its paths.
  pub restore-IsValid : IsValid (restore meanwhile now clock sid rid db).1
  restore-IsValid =
      rw (restore-row meanwhile now clock sid rid db v.sessions.keyed)
        (restore_row-IsValid (own meanwhile now clock sid rid db v.sessions.keyed))
