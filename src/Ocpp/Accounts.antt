-- ===== src/Ocpp/Accounts.antt =====
-- Every command is settled once (backend/src/ocpp/commands.ts).
use Prim.Native.String.{String}
use text.Mathlib.Text.{◌==◌ as str_eq}
use text.Mathlib.TextEquality.{eq_iff}
use ev_charger_management_pl.Prelude.{
  ℕ, ◌+◌, ◌≡◌, refl, Option, none, some, if◌then◌else◌, List, [], ◌∷◌, ◌++◌, Option-cases, inl, inr,
  arith,
}
use ev_charger_management_pl.Ocpp.Json.{Fields}
use ev_charger_management_pl.Ocpp.Messages.{OcppMessage, call, call_result, call_error}
use ev_charger_management_pl.Ocpp.Commands.{
  Answer, resolved, rejected, Calls, action_of, without, settle, reply_to, handle_response,
  send_call, time_out, cancelled, cancel_pending,
}

module _ {A : Type 0} where
  -- How often an id stands in a list.
  unfoldable pub times : String → List (String × A) → ℕ
  times id [] = 0
  times id ((other, a) ∷ rest) = (if str_eq other id then 1 else 0) + times id rest

  times-append :
      (id : String) (l m : List (String × A)) → times id (l ++ m) ≡ times id l + times id m
  unfolding times
  times-append id [] m = omega arith
  times-append id ((other, a) ∷ rest) m = omega (arith, times-append id rest m)

times-without :
    (id j action : String) (l : List (String × String))
    → action_of id l ≡ some action
    → times j l ≡ (if str_eq id j then 1 else 0) + times j (without id l)
unfolding times action_of without
times-without id j action [] h = ground arith
times-without id j action ((other, a) ∷ rest) h =
    ground (arith, times-without id j action rest, eq_iff other id, eq_iff id j, eq_iff other j)

times-cancelled :
    (reason j : String) (l : List (String × String)) → times j (cancelled reason l) ≡ times j l
unfolding times
times-cancelled reason j [] = refl
times-cancelled reason j ((id, action) ∷ rest) = omega (arith, times-cancelled reason j rest)

-- Whatever happens to the commands that were sent: replies in any order, for any id, also again or
-- too late, timers, and the end of the gateway. A new command has an id that no waiting one has.
pub data CallsAfter : List (String × String) → Calls → Type 0 where
  nothing_sent : CallsAfter [] (record { pending = []; settled = [] })
  sent_one :
      (id action : String) (payload : Fields) (cause : Option String)
      (sent : List (String × String)) (c : Calls)
      → CallsAfter sent c
      → action_of id c.pending ≡ none
      → CallsAfter ((id, action) ∷ sent) (send_call id action payload cause c).1
  replied :
      (message : OcppMessage) (sent : List (String × String)) (c : Calls)
      → CallsAfter sent c
      → CallsAfter sent (handle_response message c).1
  timer_fired :
      (id : String) (sent : List (String × String)) (c : Calls)
      → CallsAfter sent c
      → CallsAfter sent (time_out id c)
  given_up :
      (reason : String) (sent : List (String × String)) (c : Calls)
      → CallsAfter sent c
      → CallsAfter sent (cancel_pending reason c)

abbrev pub accounted : String → Calls → ℕ
accounted j c = times j c.pending + times j c.settled

settle-accounted :
    (id action j : String) (result : Answer) (c : Calls)
    → action_of id c.pending ≡ some action
    → accounted j (settle id result c) ≡ accounted j c
unfolding times
settle-accounted id action j result c waits =
    omega (
      arith,
      times-without id j action c.pending waits,
      times-append j c.settled ((id, result) ∷ []),
    )

reply_to-accounted :
    (id j : String) (result : Answer) (c : Calls)
    → accounted j (reply_to id result c).1 ≡ accounted j c
reply_to-accounted id j result c = elim (Option-cases (action_of id c.pending)) [
  | inl gone ↦ rw (gone, reply_to) refl
  | inr (action, waits) ↦ rw (waits, reply_to) (settle-accounted id action j result c waits)
]

handle_response-accounted :
    (message : OcppMessage) (j : String) (c : Calls)
    → accounted j (handle_response message c).1 ≡ accounted j c
unfolding handle_response
handle_response-accounted (call id action payload) j c = refl
handle_response-accounted (call_result id payload) j c =
    reply_to-accounted id j (resolved payload) c
handle_response-accounted (call_error id code description details) j c =
    reply_to-accounted id j (rejected code description details) c

time_out-accounted : (id j : String) (c : Calls) → accounted j (time_out id c) ≡ accounted j c
unfolding time_out
time_out-accounted id j c = elim (Option-cases (action_of id c.pending)) [
  | inl gone ↦ rw (gone, time_out) refl
  | inr (action, waits) ↦ rw (waits, time_out) (settle-accounted id action j _ c waits)
]

cancel_pending-accounted :
    (reason j : String) (c : Calls) → accounted j (cancel_pending reason c) ≡ accounted j c
unfolding cancel_pending times
cancel_pending-accounted reason j c = omega (
  arith,
  times-append j c.settled (cancelled reason c.pending),
  times-cancelled reason j c.pending,
)

action_of-append :
    (id action : String) (l : List (String × String))
    → action_of id l ≡ none
    → action_of id (l ++ (id, action) ∷ []) ≡ some action
unfolding action_of
action_of-append id action [] h = ground (arith, eq_iff id id)
action_of-append id action ((other, a) ∷ rest) h = ground (arith, action_of-append id action rest)

send_call-accounted :
    (id action j : String) (payload : Fields) (cause : Option String) (c : Calls)
    → action_of id c.pending ≡ none
    → accounted j (send_call id action payload cause c).1
      ≡ (if str_eq id j then 1 else 0) + accounted j c
unfolding send_call times
send_call-accounted id action j payload none c fresh =
    omega (arith, times-append j c.pending ((id, action) ∷ []))
send_call-accounted id action j payload (some why) c fresh = omega (
  arith,
  settle-accounted id action j _ (record c { pending = c.pending ++ (id, action) ∷ [] })
      (action_of-append id action c.pending fresh),
  times-append j c.pending ((id, action) ∷ []),
)

-- Whatever replies, timers and shutdowns follow, every command that was sent is either still waiting or
-- has been settled, and never twice: each id is waiting and settled together as often as it was sent.
pub settled_once :
    (sent : List (String × String)) (c : Calls) (j : String)
    → CallsAfter sent c
    → times j c.pending + times j c.settled ≡ times j sent
unfolding times
settled_once _ _ j nothing_sent = refl
settled_once _ _ j (sent_one id action payload cause sent c before fresh) =
    omega
      (arith, send_call-accounted id action j payload cause c fresh, settled_once sent c j before)
settled_once _ _ j (replied message sent c before) =
    omega (arith, handle_response-accounted message j c, settled_once sent c j before)
settled_once _ _ j (timer_fired id sent c before) =
    omega (arith, time_out-accounted id j c, settled_once sent c j before)
settled_once _ _ j (given_up reason sent c before) =
    omega (arith, cancel_pending-accounted reason j c, settled_once sent c j before)
