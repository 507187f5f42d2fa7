-- ===== src/Tests/Complaints.antt =====
-- Runs of the complaints on sample tickets.
use ev_charger_management_pl.Prelude.{ℕ, ◌≡◌, refl, none, some, true, false, not, ◌&&◌, [], ◌∷◌}
use ev_charger_management_pl.Prelude.Result.{is_ok}
use ev_charger_management_pl.Prelude.Table.{Table, IsTable, find_by_id}
use ev_charger_management_pl.Access.{AuthUser, Role}
use ev_charger_management_pl.Models.Session.{Text}
use ev_charger_management_pl.Complaint.Model.{
  charger_issue, ComplaintStatus, in_progress, resolved, closed, Complaint,
}
use ev_charger_management_pl.Complaint.Service.{set_complaint_status, sweep_resolved_complaints}
use ev_charger_management_pl.Complaint.Filing.{
  CreateComplaintInput, create_complaint, filed, no_anchor,
}
use ev_charger_management_pl.Complaint.Policy.{change_status_ok}
use ev_charger_management_pl.Complaint.Refusals.{
  set_status, confirm, serve, asks_closing, closed_is_final,
}
use ev_charger_management_pl.Complaint.Sweep.{closed_record, sweep_exact}
use ev_charger_management_pl.Complaint.Steps.{
  IsTraced, was_filed, requested, swept, none_yet, then_one, ComplaintSteps-IsTraced,
}
use ev_charger_management_pl.Tests.Sample.{counted_ids, driver_nine, admin, credited}

abbrev no_trim : Text → Text
no_trim text = text

abbrev operator_two : AuthUser
operator_two = record { id = 12; role = Role.operator; company_id = some 2 }

abbrev broken_plug : CreateComplaintInput
broken_plug = record {
  category = charger_issue;
  subject = 1 ∷ [];
  description = 2 ∷ [];
  charging_session_id = none;
  charger_id = none;
  follow_up_of = none;
}

abbrev ticket : Complaint
ticket = filed driver_nine broken_plug no_anchor []

abbrev in_status : ComplaintStatus → Complaint
in_status s = record ticket { status = s; resolved_at = some 1_000; resolution = some (3 ∷ []) }

abbrev a_week_later : ℕ
a_week_later = 700_000_000

abbrev tickets : Table Complaint
tickets = (4, in_status resolved) ∷ (5, in_status closed) ∷ []

tickets-IsTable : IsTable tickets
unfolding IsTable find_by_id
tickets-IsTable = (refl, (refl, tt))

abbrev first_filed : Table Complaint
first_filed = (create_complaint counted_ids driver_nine broken_plug credited []).1

abbrev picked : Table Complaint
picked = (serve no_trim [] 50 admin 0 (set_status in_progress none) first_filed).1

ComplaintSteps-IsTraced_example : IsTraced (sweep_resolved_complaints 90 picked).1
unfolding IsTable find_by_id
ComplaintSteps-IsTraced_example =
    ComplaintSteps-IsTraced no_trim counted_ids [] (sweep_resolved_complaints 90 picked).1
      (record { rows = tt; trails = λ k c e. absurd (cc (e)) })
      (then_one picked (sweep_resolved_complaints 90 picked).1
        (then_one first_filed picked
          (then_one [] first_filed none_yet (was_filed driver_nine broken_plug credited []))
          (requested [] 50 admin 0 (set_status in_progress none) first_filed refl))
        (swept 90 picked))

abbrev begun : Table Complaint
begun = (4, record (in_status in_progress) { company_id = some 2 }) ∷ []

change_status_ok_example :
    is_ok (set_complaint_status no_trim 50 operator_two 4 resolved (some (7 ∷ [])) begun).0 ≡ true
unfolding find_by_id
change_status_ok_example =
    change_status_ok no_trim 50 operator_two 4 resolved (some (7 ∷ [])) begun refl

closed_is_final_example :
    ((serve no_trim [] 50 driver_nine 5 confirm tickets).1 ≡ tickets)
    × ((is_ok (serve no_trim [] 50 driver_nine 5 confirm tickets).0 && not (asks_closing confirm))
        ≡ false)
unfolding find_by_id
closed_is_final_example =
    closed_is_final no_trim [] 50 driver_nine 5 confirm tickets (in_status closed) refl refl

sweep_exact_example :
    find_by_id 4 (sweep_resolved_complaints a_week_later tickets).1
    ≡ some (closed_record a_week_later (in_status resolved))
unfolding find_by_id
sweep_exact_example = sweep_exact a_week_later 4 tickets tickets-IsTable
