-- ===== src/Tests/Doors.antt =====
-- Doors: tokens, logins, tickets and streams.
use goi_mon.Prelude.{◌+◌, ◌≡◌, refl, none, some, arith, ok, [], true}
use goi_mon.Model.{Restaurant, User, second}
use goi_mon.Realtime.{kitchen_channel}
use goi_mon.Auth.{
  Security, staff_user, staff_login, find_slug, claims_of, is_staff_of, login_member,
}
use goi_mon.Auth.Access.{Verdict, staff_user-Verdict, IsStaffLogin, staff_login_ok}
use goi_mon.Auth.Tickets.{create_ws_ticket, TicketPayload, issue_ws_ticket}
use goi_mon.Auth.Tickets.Laws.{IsEntitled, create_ws_ticket-IsEntitled}
use goi_mon.Gateway.{subscribed, ws_kitchen}
use goi_mon.Gateway.Streams.{ws_kitchen-create_ws_ticket}
use goi_mon.Tests.Data.{noon, lunch, linh, waiter, claims}

-- Every token is the waiter's, and a hash is checked by nothing.
abbrev lax : Security
lax = record { jwt_decode = λ t. some claims; uuid = λ t. some 7; checkpw = λ pin hash. true }

staff_user-Verdict_example : Verdict lax (some "token") (staff_user lax (some "token") lunch).0
staff_user-Verdict_example = staff_user-Verdict lax lunch (some "token")

staff_login_ok_example :
    (r : Restaurant) × (u : User) × IsStaffLogin lax lunch "pho" "1234" r u
    × (waiter ≡ claims_of r.id u)
unfolding staff_login find_slug login_member is_staff_of
staff_login_ok_example = staff_login_ok lax lunch "pho" "1234" waiter refl

-- A second member of the staff.
abbrev minh : User
minh = record linh { id = 8 }

ws_kitchen-create_ws_ticket_example :
    (r : Restaurant) × (find_slug "pho" lunch ≡ some r)
    × ((ws_kitchen
          (noon + second)
          (some "abc")
          (create_ws_ticket lax noon "abc" lunch "pho" none []).1).0
        ≡ subscribed (kitchen_channel r.id))
unfolding create_ws_ticket
ws_kitchen-create_ws_ticket_example =
    ws_kitchen-create_ws_ticket "abc" refl lax noon (noon + second) lunch "pho" none [] refl
      (omega arith)

create_ws_ticket-IsEntitled_example :
    (p : TicketPayload) × IsEntitled lax lunch "pho" none p
    × (create_ws_ticket lax noon "abc" lunch "pho" none []
        ≡ (ok "abc", issue_ws_ticket noon "abc" p []))
unfolding create_ws_ticket
create_ws_ticket-IsEntitled_example =
    create_ws_ticket-IsEntitled lax noon "abc" lunch "pho" none [] "abc" refl
