-- ===== src/Admin/Requests/Visits.antt =====
-- What the owner does at the desk does not reach the visits and their items.
use goi_mon.Prelude.{ℕ, ◌≡◌, refl}
use goi_mon.Model.{Db}
use goi_mon.Storage.{Config}
use goi_mon.Auth.{TokenPayload}
use goi_mon.Admin.{Office}
use goi_mon.Admin.Requests.{Request, Outside, handle}
use goi_mon.Admin.Requests.Edits.{
  Edit, unchanged, changed_pin, changed_settings, added_category, changed_category, added_item,
  changed_item, added_table, changed_table,
}
use goi_mon.Admin.Requests.Outcomes.{handle-Edit}

abbrev pub HasSameVisits : Db → Db → Type 0
HasSameVisits db db' = (db'.sessions ≡ db.sessions) × (db'.items ≡ db.items)

Edit-HasSameVisits : {rid : ℕ} {db db' : Db} → Edit rid db db' → HasSameVisits db db'
Edit-HasSameVisits (unchanged e) = rw e (refl, refl)
Edit-HasSameVisits (changed_pin u hash h e) = rw e (refl, refl)
Edit-HasSameVisits (changed_settings stamp body s h e) = rw e (refl, refl)
Edit-HasSameVisits (added_category c mine e) = rw e (refl, refl)
Edit-HasSameVisits (changed_category id body c h e) = rw e (refl, refl)
Edit-HasSameVisits (added_item m mine own e) = rw e (refl, refl)
Edit-HasSameVisits (changed_item id f m h keeps e) = rw e (refl, refl)
Edit-HasSameVisits (added_table t mine e) = rw e (refl, refl)
Edit-HasSameVisits (changed_table id f t h keeps e) = rw e (refl, refl)

pub handle-HasSameVisits :
    {Image : Type 0} (cfg : Config) (ext : Outside Image) (user : TokenPayload) (q : Request)
    (o : Office)
    → HasSameVisits o.db (handle cfg ext user q o).1.db
handle-HasSameVisits cfg ext user q o = Edit-HasSameVisits (handle-Edit cfg ext user o q)
