-- ===== src/Customer/Orders/Failures.antt =====
-- The orders that `create_order` (qorder_api/api/customer_router.py) refuses once it has read a session.
use goi_mon.Prelude.{
  ℕ, ◌≡◌, refl, sym, ◌∙◌, ap, true, false, Option, none, some, List, [], ◌∷◌, arith, Result, ok,
  err, Bool-cases, inl, inr, ◌⊎◌,
}
use goi_mon.Model.{MenuItem, TableSession, Db, is_open}
use goi_mon.Realtime.{World}
use goi_mon.Http.{HttpError, unknown_dish, dish_sold_out, session_not_open, Env}
use goi_mon.Customer.Orders.{OrderLine, find_dish, check_lines, place_order, order_in_session}
use goi_mon.Customer.Orders.Snapshots.{line_result, order_refused, order_unavailable, order_placed}

-- The error of a cart: the first of its lines that cannot be served, and why.
pub data FirstBad (rid : ℕ) (db : Db) : List OrderLine → HttpError → Type 0 where
  off_menu :
      {l : OrderLine} {ls : List OrderLine}
      → find_dish rid l.menu_item_id db ≡ none
      → FirstBad rid db (l ∷ ls) unknown_dish
  sold_out :
      {l : OrderLine} {ls : List OrderLine} (m : MenuItem)
      → find_dish rid l.menu_item_id db ≡ some m
      → m.is_available ≡ false
      → FirstBad rid db (l ∷ ls) dish_sold_out
  further :
      {l : OrderLine} {ls : List OrderLine} {x : HttpError} (m : MenuItem)
      → find_dish rid l.menu_item_id db ≡ some m
      → m.is_available ≡ true
      → FirstBad rid db ls x
      → FirstBad rid db (l ∷ ls) x

rest_err :
    (l : OrderLine) (m : MenuItem) (rest : Result HttpError (List (OrderLine × MenuItem)))
    (x : HttpError)
    → m.is_available ≡ true
    → line_result l (some m) rest ≡ err x
    → rest ≡ err x
rest_err l m (ok others) x sale h = absurd (ground arith)
rest_err l m (err y) x sale h = ground arith

line_err :
    (rid : ℕ) (db : Db) (l : OrderLine) (ls : List OrderLine) (found : Option MenuItem)
    (rest : Result HttpError (List (OrderLine × MenuItem))) (x : HttpError)
    → find_dish rid l.menu_item_id db ≡ found
    → ((y : HttpError) → rest ≡ err y → FirstBad rid db ls y)
    → line_result l found rest ≡ err x
    → FirstBad rid db (l ∷ ls) x
line_err rid db l ls none rest x e bad h =
    let why : x ≡ unknown_dish = ground arith in rw why (off_menu e)
line_err rid db l ls (some m) rest x e bad h = elim (Bool-cases m.is_available) [
  | inl sale ↦ further m e sale (bad x (rest_err l m rest x sale h))
  | inr out ↦ let why : x ≡ dish_sold_out = ground arith in rw why (sold_out m e out)
]

check_lines-FirstBad :
    (rid : ℕ) (db : Db) (body : List OrderLine) (x : HttpError)
    → check_lines rid db body ≡ err x
    → FirstBad rid db body x
unfolding check_lines find_dish
check_lines-FirstBad rid db [] x h = absurd (ground arith)
check_lines-FirstBad rid db (l ∷ ls) x h =
    line_err rid db l ls (find_dish rid l.menu_item_id db) (check_lines rid db ls) x refl
      (check_lines-FirstBad rid db ls) h

module _ (env : Env) (rid : ℕ) (body : List OrderLine) (s : TableSession) (w : World) where
  not_placed :
      (x : HttpError) (pairs : List (OrderLine × MenuItem))
      → (place_order env rid s pairs (record w { db = env.between w.db })).0 ≡ err x
      → ⊥
  unfolding place_order
  not_placed x pairs h = ground arith

  refused_open :
      (x : HttpError)
      → (order_in_session env rid body s w).0 ≡ err x
      → is_open s.status ≡ true
      → (c : Result HttpError (List (OrderLine × MenuItem)))
      → check_lines rid (env.between w.db) body ≡ c
      → FirstBad rid (env.between w.db) body x
        × ((order_in_session env rid body s w).1 ≡ record w { db = env.between w.db })
  refused_open x h up (err y) e =
      let run = order_unavailable env rid body s w y up e in
      let same : y ≡ x = ground (arith, ap (λ t. t.0) run) in
      (check_lines-FirstBad rid (env.between w.db) body x (e ∙ ap err same), ap (λ t. t.1) run)
  refused_open x h up (ok pairs) e =
      absurd
        (not_placed x pairs (sym (ap (λ t. t.0) (order_placed env rid body s w pairs up e)) ∙ h))

  -- Once its session was read, an order that fails stores nothing and announces nothing. Its error
  -- says why: the session was not open, or else it is the error of the first line of the cart whose
  -- dish is not on the menu or sold out.
  pub order_in_session_refused :
      (x : HttpError)
      → (order_in_session env rid body s w).0 ≡ err x
      → ((x ≡ session_not_open)
          × (is_open s.status ≡ false)
          × ((order_in_session env rid body s w).1 ≡ w))
        ⊎ (FirstBad rid (env.between w.db) body x
            × (is_open s.status ≡ true)
            × ((order_in_session env rid body s w).1 ≡ record w { db = env.between w.db }))
  order_in_session_refused x h = elim (Bool-cases (is_open s.status)) [
    | inr shut ↦
        let run = order_refused env rid body s w shut in
        inl (ground (arith, ap (λ t. t.0) run), shut, ap (λ t. t.1) run)
    | inl up ↦
        let (bad, run) = refused_open x h up (check_lines rid (env.between w.db) body) refl in
        inr (bad, up, run)
  ]
