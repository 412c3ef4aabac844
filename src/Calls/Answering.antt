-- ===== src/Calls/Answering.antt =====
-- The answering of calls (qorder_api/services/staff_call_service.py, `ack` and
-- `dismiss_pending`).
use goi_mon.Prelude.{
  ℕ, ◌≡◌, refl, sym, ◌∙◌, ap, Bool, true, false, not, ◌&&◌, ◌==◌, none, some, List, [], ◌∷◌, arith,
  ok, err, Result, length, inl, inr, Bool-cases, Option-cases, ==_refl,
}
use goi_mon.Sql.{select, update, first}
use goi_mon.Sql.Rows.{select-update_disjoint, select-update_self}
use goi_mon.Model.{StaffCall, Db, is_waiting}
use goi_mon.Realtime.{World, publish, announce}
use goi_mon.Calls.{
  ack_row, ack_found, ack, CallError, call_not_found, is_dismissed, dismiss_row, dismiss_pending,
}

-- The first row that passes a test is still the first one after an update that rewrites it and
-- does not change which rows pass.
first-update :
    (p q : StaffCall → Bool) (f : StaffCall → StaffCall) (calls : List StaffCall) (c : StaffCall)
    → ((x : StaffCall) → p (f x) ≡ p x)
    → q c ≡ true
    → first (select p calls) ≡ some c
    → first (select p (update q f calls)) ≡ some (f c)
unfolding select first update
first-update p q f [] c same hit h = absurd (ground arith)
first-update p q f (x ∷ xs) c same hit h = ground (arith, same x, first-update p q f xs c same hit)

abbrev wanted : ℕ → ℕ → StaffCall → Bool
wanted call_id restaurant_id c = c.id == call_id && c.restaurant_id == restaurant_id

-- Acknowledging a call that is not pending answers with it and does nothing.
ack_settled :
    (now call_id actor restaurant_id : ℕ) (w : World) (c : StaffCall)
    → first (select (wanted call_id restaurant_id) w.db.calls) ≡ some c
    → is_waiting c.status ≡ false
    → ack now call_id actor restaurant_id w ≡ (ok c, w)
unfolding ack ack_found
ack_settled now call_id actor restaurant_id w c found settled = rw (found, settled)

ack_waiting :
    (now call_id actor restaurant_id : ℕ) (w : World) (c : StaffCall)
    → first (select (wanted call_id restaurant_id) w.db.calls) ≡ some c
    → is_waiting c.status ≡ true
    → ((ack now call_id actor restaurant_id w).0 ≡ ok (ack_row now actor c))
      × ((ack now call_id actor restaurant_id w).1.db.calls
          ≡ update (λ x. x.id == c.id) (ack_row now actor) w.db.calls)
unfolding ack ack_found announce publish
ack_waiting now call_id actor restaurant_id w c found waiting =
    (rw (found, waiting), rw (found, waiting))

ack_missing :
    (now call_id actor restaurant_id : ℕ) (w : World)
    → first (select (wanted call_id restaurant_id) w.db.calls) ≡ none
    → ack now call_id actor restaurant_id w ≡ (err call_not_found, w)
unfolding ack ack_found
ack_missing now call_id actor restaurant_id w missing = rw missing

module _ (now call_id actor restaurant_id now' actor' : ℕ) (w : World) where
  Twice : Type 0
  Twice =
      ack now' call_id actor' restaurant_id (ack now call_id actor restaurant_id w).1
      ≡ ack now call_id actor restaurant_id w

  twice_missing : first (select (wanted call_id restaurant_id) w.db.calls) ≡ none → Twice
  unfolding Twice
  twice_missing e =
      rw (ack_missing now call_id actor restaurant_id w e)
        (ack_missing now' call_id actor' restaurant_id w e)

  twice_settled :
      (c : StaffCall)
      → first (select (wanted call_id restaurant_id) w.db.calls) ≡ some c
      → is_waiting c.status ≡ false
      → Twice
  unfolding Twice
  twice_settled c e settled =
      rw (ack_settled now call_id actor restaurant_id w c e settled)
        (ack_settled now' call_id actor' restaurant_id w c e settled)

  twice_waiting :
      (c : StaffCall)
      → first (select (wanted call_id restaurant_id) w.db.calls) ≡ some c
      → is_waiting c.status ≡ true
      → Twice
  unfolding Twice ack_row
  twice_waiting c e waiting =
      let (answer, calls) = ack_waiting now call_id actor restaurant_id w c e waiting in
      ack_settled now' call_id actor' restaurant_id (ack now call_id actor restaurant_id w).1
        (ack_row now actor c)
        (rw calls (
          first-update (wanted call_id restaurant_id) (λ x. x.id == c.id) (ack_row now actor)
            w.db.calls c (λ x. refl) (==_refl c.id) e))
        refl
      ∙ ap (λ (r : Result CallError StaffCall). (r, (ack now call_id actor restaurant_id w).1))
          (sym answer)

-- Acknowledging a call a second time, by whoever and whenever, gives the answer of the first time
-- and changes nothing: the first actor and time stay, no event goes out, and where there is no
-- such call both fail alike.
pub ack-ack :
    (now call_id actor restaurant_id now' actor' : ℕ) (w : World)
    → ack now' call_id actor' restaurant_id (ack now call_id actor restaurant_id w).1
      ≡ ack now call_id actor restaurant_id w
unfolding Twice
ack-ack now call_id actor restaurant_id now' actor' w =
    elim (Option-cases (first (select (wanted call_id restaurant_id) w.db.calls))) [
      | inl e ↦ twice_missing now call_id actor restaurant_id now' actor' w e
      | inr (c, e) ↦ elim (Bool-cases (is_waiting c.status)) [
        | inl waiting ↦ twice_waiting now call_id actor restaurant_id now' actor' w c e waiting
        | inr settled ↦ twice_settled now call_id actor restaurant_id now' actor' w c e settled
      ]
    ]

-- Not a call of this session of the restaurant.
abbrev pub is_elsewhere : ℕ → ℕ → StaffCall → Bool
is_elsewhere session_id restaurant_id c =
    not (c.table_session_id == session_id && c.restaurant_id == restaurant_id)

-- After the calls of a session were dismissed there is none left to dismiss, and the calls of
-- other sessions and restaurants are those that were there.
pub dismiss_pending-none :
    (now now' session_id restaurant_id : ℕ) (db : Db)
    → ((dismiss_pending now' session_id restaurant_id
          (dismiss_pending now session_id restaurant_id db).1).0
        ≡ 0)
      × (select
            (is_elsewhere session_id restaurant_id)
            (dismiss_pending now session_id restaurant_id db).1.calls
          ≡ select (is_elsewhere session_id restaurant_id) db.calls)
unfolding dismiss_pending is_dismissed
dismiss_pending-none now now' session_id restaurant_id db = (
  ap length (
      select-update_self (is_dismissed session_id restaurant_id)
        (is_dismissed session_id restaurant_id) (dismiss_row now) db.calls (λ x e. ground arith)
        (λ x e. e)),
  select-update_disjoint (is_elsewhere session_id restaurant_id)
      (is_dismissed session_id restaurant_id) (dismiss_row now) db.calls (λ x e. ground arith)
      (λ x e. ground arith),
)
