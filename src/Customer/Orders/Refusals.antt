-- ===== src/Customer/Orders/Refusals.antt =====
-- Why `create_order` (qorder_api/api/customer_router.py) refuses an order, and what it leaves then.
use goi_mon.Prelude.{
  ℕ, ◌==◌, ◌&&◌, [], ◌∷◌, ◌≡◌, sym, ◌∙◌, ap, subst, Bool, true, false, String, none, some, List,
  arith, Result, ok, err, Bool-cases, inl, inr,
}
use goi_mon.Model.{Table, Restaurant, TableSession, Db, is_open}
use goi_mon.Realtime.{World}
use goi_mon.Http.{
  HttpError, invalid_body, bad_qr, restaurant_inactive, unhandled, Env, find_table, find_restaurant,
  resolve, open_session,
}
use goi_mon.Sql.{select, first}
use goi_mon.Sessions.{SessionError, race_recovery_failed, get_or_open, find_open_session}
use goi_mon.Sessions.Opening.{IsOpening, get_or_open-IsOpening}
use goi_mon.Customer.Orders.{OrderLine, is_valid_body, order_in_session, create_order}
use goi_mon.Customer.Orders.Failures.{FirstBad, order_in_session_refused}

module _ (env : Env) (qr_token : String) (body : List OrderLine) (w : World) where
  -- The opening of a session at the table of the code.
  abbrev pub opening : Table → Restaurant → Result SessionError TableSession × Db
  opening t r = get_or_open env.meanwhile env.later env.open_now env.session_id t.id r.id none w.db

  -- The table and the restaurant of the code, both active.
  pub record IsScanned (t : Table) (r : Restaurant) : Type 0 where
    pub table : find_table qr_token w.db ≡ some t
    pub restaurant : find_restaurant t.restaurant_id w.db ≡ some r

  -- The error, and the world that is left.
  pub data IsRefused : HttpError → World → Type 0 where
    bad_body : is_valid_body body ≡ false → IsRefused invalid_body w
    unknown_code : find_table qr_token w.db ≡ none → IsRefused bad_qr w
    inactive :
        (t : Table)
        → find_table qr_token w.db ≡ some t
        → find_restaurant t.restaurant_id w.db ≡ none
        → IsRefused restaurant_inactive w
    lost_race :
        (t : Table) (r : Restaurant)
        → IsScanned t r
        → find_open_session t.id (opening t r).1 ≡ none
        → IsRefused (unhandled race_recovery_failed) (record w { db = (opening t r).1 })
    unserved :
        (t : Table) (r : Restaurant) (s : TableSession) (x : HttpError)
        → IsScanned t r
        → find_open_session t.id (opening t r).1 ≡ some s
        → FirstBad r.id (env.between (opening t r).1) body x
        → IsRefused x (record w { db = env.between (opening t r).1 })

  module _ (t : Table) (r : Restaurant) (valid : is_valid_body body ≡ true)
      (scanned : IsScanned t r) where
    handed_on :
        (s : TableSession)
        → (opening t r).0 ≡ ok s
        → create_order env qr_token body w
          ≡ order_in_session env r.id body s (record w { db = (opening t r).1 })
    unfolding create_order resolve open_session
    handed_on s h = ground (arith, scanned.table, scanned.restaurant)

opening_ok :
    (table : ℕ) (s : TableSession) (p : Result SessionError TableSession × Db)
    → p.0 ≡ ok s
    → IsOpening table p
    → find_open_session table p.1 ≡ some s
opening_ok table s (ok s', db) h o = ground arith
opening_ok table s (err e', db) h o = absurd (cc)

first-passes :
    (p : TableSession → Bool) (xs : List TableSession) (s : TableSession)
    → first (select p xs) ≡ some s
    → p s ≡ true
unfolding first select
first-passes p [] s h = absurd (cc)
first-passes p (x ∷ xs) s h = elim (Bool-cases (p x)) [
  | inl e ↦ let same : x ≡ s = ground arith in subst (λ y. p y ≡ true) same e
  | inr e ↦ first-passes p xs s (ground arith)
]

open_of_found :
    (table : ℕ) (db : Db) (s : TableSession)
    → find_open_session table db ≡ some s
    → is_open s.status ≡ true
unfolding find_open_session
open_of_found table db s h =
    let both = first-passes (λ s. s.table_id == table && is_open s.status) db.sessions s h in
    ground arith

module _ (env : Env) (qr_token : String) (body : List OrderLine) (w : World) (x : HttpError)
    (failed : (create_order env qr_token body w).0 ≡ err x) where
  abbrev left : World
  left = (create_order env qr_token body w).1

  in_session :
      (t : Table) (r : Restaurant) (s : TableSession)
      → is_valid_body body ≡ true
      → IsScanned env qr_token body w t r
      → (opening env qr_token body w t r).0 ≡ ok s
      → IsRefused env qr_token body w x left
  in_session t r s valid scanned h =
      let w₁ = record w { db = (opening env qr_token body w t r).1 } in
      let run = handed_on env qr_token body w t r valid scanned s h in
      let here = opening_ok t.id s (opening env qr_token body w t r) h (
        get_or_open-IsOpening env.meanwhile env.later env.open_now env.session_id t.id r.id none
          w.db) in
      elim (order_in_session_refused env r.id body s w₁ x (sym (ap (λ t. t.0) run) ∙ failed)) [
        | inl (e, shut, same) ↦ absurd (ground (arith, open_of_found t.id w₁.db s here))
        | inr (bad, up, same) ↦
            subst (λ (v : World). IsRefused env qr_token body w x v)
              (sym (ap (λ t. t.1) run ∙ same)) (unserved t r s x scanned here bad)
      ]
