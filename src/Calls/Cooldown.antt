-- ===== src/Calls/Cooldown.antt =====
-- The cooldown of staff calls (qorder_api/services/staff_call_service.py, `create`).
use goi_mon.Prelude.{
  two_more, ℕ, ◌+◌, ◌*◌, ◌≤◌, ◌<◌, ◌≡◌, ap, ◌∙◌, refl, false, Option, none, some, List, [], ◌∷◌,
  ◌++◌, arith, ok, inl, inr, Bool-cases, Option-cases, All,
}
use goi_mon.Sql.{select, first}
use goi_mon.Model.{StaffCall, Db, second}
use goi_mon.Realtime.{World, publish, announce}
use goi_mon.Calls.{get_cooldown, is_recent, touch_session, new_call, create, CallError}

-- Two calls for one table, the later one not within the cooldown of the earlier one.
abbrev pub Apart : ℕ → ℕ → StaffCall → StaffCall → Type 0
Apart table_id cooldown c c' =
    c.table_id ≡ table_id
    → c'.table_id ≡ table_id
    → c.created_at + cooldown * second ≤ c'.created_at

-- Every call for a table is a cooldown away from all the calls before it.
abbrev pub IsSpaced : ℕ → ℕ → List StaffCall → Type 0
IsSpaced table_id cooldown [] = Unit
IsSpaced table_id cooldown (c ∷ cs) =
    All (Apart table_id cooldown c) cs × IsSpaced table_id cooldown cs

module _ (now call_id table_id session_id restaurant_id cooldown : ℕ) where
  All-snoc :
      (P : StaffCall → Type 0) (cs : List StaffCall) (c : StaffCall)
      → All P cs
      → P c
      → All P (cs ++ c ∷ [])
  All-snoc P [] c h p = (p, tt)
  All-snoc P (x ∷ xs) c (q, h) p = (q, All-snoc P xs c h p)

  not_recent :
      (c : StaffCall)
      → is_recent now table_id cooldown c ≡ false
      → Apart table_id cooldown c (new_call now call_id table_id session_id restaurant_id)
  unfolding is_recent new_call
  not_recent c h here there = ground arith

  append-IsSpaced :
      (cs : List StaffCall)
      → first (select (is_recent now table_id cooldown) cs) ≡ none
      → IsSpaced table_id cooldown cs
      → IsSpaced table_id cooldown
          (cs ++ new_call now call_id table_id session_id restaurant_id ∷ [])
  unfolding select first
  append-IsSpaced [] none_recent h = (tt, tt)
  append-IsSpaced (c ∷ cs) none_recent (apart, h) =
      elim (Bool-cases (is_recent now table_id cooldown c)) [
        | inl e ↦ absurd (ground arith)
        | inr e ↦ (
          All-snoc (Apart table_id cooldown c) cs
              (new_call now call_id table_id session_id restaurant_id) apart (not_recent c e),
          append-IsSpaced cs (ground arith) h,
        )
      ]

module _ (gap : Db → Db) (now call_id table_id session_id restaurant_id : ℕ) (w : World) where
  -- The calls that count as recent for this request.
  abbrev pub recent : Option StaffCall
  recent = first (select (is_recent now table_id (get_cooldown restaurant_id w.db)) w.db.calls)

  create_lem :
      recent ≡ none
      → ((create {E = CallError} gap now call_id table_id session_id restaurant_id w).1.db.calls
          ≡ (gap w.db).calls ++ new_call now call_id table_id session_id restaurant_id ∷ [])
        × ((create {E = CallError} gap now call_id table_id session_id restaurant_id w).0
            ≡ ok (some (new_call now call_id table_id session_id restaurant_id)))
  unfolding create announce publish touch_session
  create_lem e = (rw e, rw e)

  create_dropped :
      (c : StaffCall)
      → recent ≡ some c
      → create {E = CallError} gap now call_id table_id session_id restaurant_id w ≡ (ok none, w)
  unfolding create
  create_dropped c e = rw e

  -- If the calls for a table are at least the cooldown of the restaurant apart, then they still
  -- are after a further request for that table at any time, provided that no other transaction
  -- changes the calls between its query for recent calls and its INSERT.
  pub create-IsSpaced :
      (gap w.db).calls ≡ w.db.calls
      → IsSpaced table_id (get_cooldown restaurant_id w.db) w.db.calls
      → IsSpaced table_id
          (get_cooldown restaurant_id w.db)
          (create {E = CallError} gap now call_id table_id session_id restaurant_id w).1.db.calls
  create-IsSpaced quiet h = elim (Option-cases recent) [
    | inl e ↦
        rw ((create_lem e).0, quiet)
          (append-IsSpaced now call_id table_id session_id restaurant_id
            (get_cooldown restaurant_id w.db) w.db.calls e h)
    | inr (c, e) ↦ rw (create_dropped c e) h
  ]

-- What the other request commits.
abbrev pub rings_too : ℕ → ℕ → ℕ → ℕ → ℕ → World → Db → Db
rings_too now call_id table_id session_id restaurant_id w db =
    (create {E = CallError} (λ d. d) now call_id table_id session_id restaurant_id
      (record w { db = db })).1.db

too_close :
    (now now' call_id call_id' table_id session_id session_id' restaurant_id cooldown : ℕ)
    → now < now' + cooldown * second
    → ¬ IsSpaced table_id cooldown (
        new_call now' call_id' table_id session_id' restaurant_id
        ∷ new_call now call_id table_id session_id restaurant_id
        ∷ [])
unfolding new_call
too_close now now' call_id call_id' table_id session_id session_id' restaurant_id cooldown soon
      ((apart, t), rest) =
    omega (arith, apart refl refl)

module _ (now now' call_id call_id' table_id session_id session_id' restaurant_id : ℕ)
    (w : World) where
  -- Two requests for one table of a restaurant can both be taken within its cooldown: if neither
  -- finds a recent call, and the first commits its call between the query and the INSERT of the
  -- second, whose time is less than the cooldown after that of the first, then both calls are
  -- stored, the second request is answered with its call, and the two are not the cooldown apart.
  pub create_overlap :
      recent (λ d. d) now' call_id' table_id session_id' restaurant_id w ≡ none
      → recent (λ d. d) now call_id table_id session_id restaurant_id w ≡ none
      → now < now' + get_cooldown restaurant_id w.db * second
      → let gap = rings_too now' call_id' table_id session_id' restaurant_id w in
        let (q, w') = create {E = CallError} gap now call_id table_id session_id restaurant_id w in
        (c : StaffCall) × (c' : StaffCall) × (q ≡ ok (some c))
        × (w'.db.calls ≡ w.db.calls ++ c' ∷ c ∷ [])
        × ((c.table_id ≡ table_id) × (c'.table_id ≡ table_id))
        × ¬ IsSpaced table_id (get_cooldown restaurant_id w.db) (c' ∷ c ∷ [])
  create_overlap free' free soon =
      let gap = rings_too now' call_id' table_id session_id' restaurant_id w in
      let c = new_call now call_id table_id session_id restaurant_id in
      let c' = new_call now' call_id' table_id session_id' restaurant_id in
      let (calls, answer) = create_lem gap now call_id table_id session_id restaurant_id w free in
      let (before, answer') =
        create_lem (λ d. d) now' call_id' table_id session_id' restaurant_id w free' in
      (
        c,
        c',
        answer,
        calls ∙ ap (λ (cs : List StaffCall). cs ++ c ∷ []) before ∙ two_more w.db.calls c' c,
        (unfold new_call in (refl, refl)),
        too_close now now' call_id call_id' table_id session_id session_id' restaurant_id
            (get_cooldown restaurant_id w.db) soon,
      )
