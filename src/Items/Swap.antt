-- ===== src/Items/Swap.antt =====
-- The compare-and-swap that `set_status` and `cancel_item` share, for any test and any rewrite.
use goi_mon.Prelude.{
  ℕ, ◌≡◌, ◌≢◌, refl, ◌∙◌, ap, Bool, true, ◌&&◌, none, some, List, map, arith, ◌==◌, Exec, ok, err,
  ◌>>=◌, Option-cases, Bool-cases, ◌⊎◌, inl, inr,
}
use goi_mon.Sql.{update, returning, select, first}
use goi_mon.Sql.Rows.{update-none}
use goi_mon.Sql.Keyed.{
  find-key, find-update_ne, update-IsKeyed, IsKeyed, find-update, first-select, map_found, kept,
}
use goi_mon.Model.{OrderItem, Db, find_item, item_key}
use goi_mon.Items.{ItemError, conflict, update_item, touch_order_session, after_cas}

module _ (f : OrderItem → OrderItem) where
  first-map : (ys : List OrderItem) → first (map f ys) ≡ map_found item_key f (first ys)
  unfolding first
  first-map ys = ground arith

pub items-touch : (now k : ℕ) (db : Db) → (touch_order_session now k db).items ≡ db.items
unfolding touch_order_session
items-touch now k db = refl

module _ (now i : ℕ) (q : OrderItem → Bool) (f : OrderItem → OrderItem) where
  abbrev pub at_item : OrderItem → Bool
  at_item x = x.id == i && q x

  abbrev pub swap : Exec Db ItemError OrderItem
  swap = do found ← update_item at_item f; after_cas now found

  abbrev pub written : Db → Db
  written db = record db { items = update at_item f db.items }

  module _ (db : Db) (keyed : IsKeyed item_key db.items) where
    returned :
        first (returning at_item f db.items)
        ≡ map_found item_key f (kept item_key q (find_item i db))
    unfolding returning
    returned =
        first-map f (select at_item db.items)
        ∙ ap (map_found item_key f) (first-select item_key i q db.items keyed)

    -- The item is there and passes the test: it is rewritten, and its session is touched.
    pub swap_hit :
        (x : OrderItem)
        → find_item i db ≡ some x
        → q x ≡ true
        → swap db ≡ (ok (f x), touch_order_session now (f x).order_id (written db))
    unfolding update_item after_cas
    swap_hit x e h = rw (returned, e, h)

    -- Otherwise nothing changes.
    pub swap_miss : kept item_key q (find_item i db) ≡ none → swap db ≡ (err conflict, db)
    unfolding update_item after_cas
    swap_miss h =
        rw (
          returned,
          h,
          update-none at_item f db.items (first-select item_key i q db.items keyed ∙ h),
        )

    -- One of the two happens.
    pub swap_cases :
        ((x : OrderItem) × (find_item i db ≡ some x)
          × (q x ≡ true)
          × (swap db ≡ (ok (f x), touch_order_session now (f x).order_id (written db))))
        ⊎ ((kept item_key q (find_item i db) ≡ none) × (swap db ≡ (err conflict, db)))
    swap_cases = elim (Option-cases (find_item i db)) [
      | inl gone ↦ inr (ap (kept item_key q) gone, swap_miss (ap (kept item_key q) gone))
      | inr (x, e) ↦ elim (Bool-cases (q x)) [
        | inl h ↦ inl (x, e, h, swap_hit x e h)
        | inr h ↦ inr (rw (e, h), swap_miss (rw (e, h)))
      ]
    ]

    module _ (keeps : (x : OrderItem) → (f x).id ≡ x.id) where
      -- Whatever happens, the other items stay as they were.
      pub swap_ne : (j : ℕ) → j ≢ i → find_item j (swap db).1 ≡ find_item j db
      swap_ne j ne = elim swap_cases [
        | inl (x, e, h, s) ↦ rw (s, items-touch) (find-update_ne item_key i j q f db.items keeps ne)
        | inr (k, s) ↦ rw s
      ]

      pub find-swap_hit :
          (x : OrderItem)
          → find_item i db ≡ some x
          → q x ≡ true
          → find_item i (swap db).1 ≡ some (f x)
      find-swap_hit x e h =
          rw
            (
              swap_hit x e h,
              items-touch,
              find-update item_key i at_item f db.items keeps,
              e,
              h,
              find-key item_key i db.items x e,
            )
            (ground arith)

      pub swap-IsKeyed : IsKeyed item_key (swap db).1.items
      swap-IsKeyed = elim swap_cases [
        | inl (x, e, h, s) ↦
            rw (s, items-touch) (update-IsKeyed item_key at_item f db.items keeps keyed)
        | inr (k, s) ↦ rw s keyed
      ]
