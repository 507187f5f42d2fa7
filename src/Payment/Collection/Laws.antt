-- ===== src/Payment/Collection/Laws.antt =====
-- What a sweep takes on: never more than its batch, orphans before retries
-- (backend/src/services/payment.service.ts).
use ev_charger_management_pl.Prelude.{
  ℕ, ◌-◌, ◌≤◌, ◌≡◌, refl, Bool-cases, inl, inr, ltb, [], ◌∷◌, length, length-append, arith,
}
use ev_charger_management_pl.Prelude.Table.{Table, find_all}
use ev_charger_management_pl.Prelude.Order.{null_first, sort_by, limit, length-limit}
use ev_charger_management_pl.Models.Payment.{PaymentTransaction}
use ev_charger_management_pl.Store.{Store}
use ev_charger_management_pl.Payment.Collection.Defs.{
  is_retry, ids_of, sessions_of, orphans, retries, sweep_ids,
}

length-ids_of : {A : Type 0} (t : Table A) → length (ids_of t) ≡ length t
length-ids_of [] = refl
length-ids_of (row ∷ t) = omega (arith, length-ids_of t)

length-sessions_of : (t : Table PaymentTransaction) → length (sessions_of t) ≤ length t
length-sessions_of [] = omega arith
length-sessions_of ((k, p) ∷ t) = ground (arith, length-sessions_of t)

length-retries : (now n : ℕ) (db : Store) → length (retries now n db) ≤ n
unfolding retries
length-retries now n db =
    let due =
      sort_by (λ (p : PaymentTransaction). null_first p.next_attempt_at)
        (find_all (is_retry now) db.payments) in
    elim (Bool-cases (ltb 0 n)) [
      | inl room ↦ rw room (omega (arith, length-sessions_of (limit n due), length-limit n due))
      | inr full ↦ rw full (omega arith)
    ]

length-orphans : (batch : ℕ) (db : Store) → length (ids_of (orphans batch db)) ≤ batch
unfolding orphans
length-orphans batch db = rw length-ids_of (length-limit batch _)

-- One sweep takes on at most its batch of sessions.
pub length-sweep_ids : (now batch : ℕ) (db : Store) → length (sweep_ids now batch db) ≤ batch
unfolding sweep_ids
length-sweep_ids now batch db =
    let first = ids_of (orphans batch db) in
    omega (
      arith,
      length-append {0} first (retries now (batch - length first) db),
      length-retries now (batch - length first) db,
      length-orphans batch db,
    )
