-- ===== src/Session/Exclusive.antt =====
-- One open session for each connector and for each driver: what the unique indexes of
-- backend/src/models/chargingSession.model.ts enforce when a session is created, and what every
-- report of a charger keeps (backend/src/services/sessionEvents.service.ts).
use ev_charger_management_pl.Prelude.{
  ℕ, ◌≡◌, ◌≢◌, ◌⊎◌, refl, sym, ap, ◌∙◌, some, none, true, Bool, Option-cases, Bool-cases, inl, inr,
  ◌==◌, ==_iff, ◌&&◌, arith,
}
use ev_charger_management_pl.Prelude.Table.{
  Table, ObjectIds, find_by_id, find_by_id-save, find_by_id-create, find_one, find_one_complete,
  save, create,
}
use ev_charger_management_pl.Models.Session.{ChargingSession, is_open}
use ev_charger_management_pl.Store.{Store}
use ev_charger_management_pl.Session.Starting.{create_session}

-- No two open sessions share a connector or a driver.
pub record IsExclusive (t : Table ChargingSession) : Type 0 where
  pub connector :
      (j k : ℕ) (a b : ChargingSession)
      → find_by_id j t ≡ some a
      → find_by_id k t ≡ some b
      → is_open a.status ≡ true
      → is_open b.status ≡ true
      → a.connector_id ≡ b.connector_id
      → j ≡ k
  pub driver :
      (j k : ℕ) (a b : ChargingSession)
      → find_by_id j t ≡ some a
      → find_by_id k t ≡ some b
      → is_open a.status ≡ true
      → is_open b.status ≡ true
      → a.user_id ≡ b.user_id
      → j ≡ k

-- A write that gives a session to nobody else and does not open it again.
pub record Keeps (s s' : ChargingSession) : Type 0 where
  pub same_connector : s'.connector_id ≡ s.connector_id
  pub same_driver : s'.user_id ≡ s.user_id
  pub opens_nothing : is_open s'.status ≡ true → is_open s.status ≡ true

-- An open session of the written table was an open session of the table before.
origin :
    (k : ℕ) (s s' : ChargingSession) (t : Table ChargingSession) (j : ℕ) (a : ChargingSession)
    → find_by_id k t ≡ some s
    → Keeps s s'
    → find_by_id j (save k s' t) ≡ some a
    → is_open a.status ≡ true
    → (b : ChargingSession) × (find_by_id j t ≡ some b)
      × (is_open b.status ≡ true)
      × (b.connector_id ≡ a.connector_id)
      × (b.user_id ≡ a.user_id)
origin k s s' t j a stored keeps found opened = elim (Bool-cases (k == j)) [
  | inl same ↦
      let at : k ≡ j = (==_iff k j).0 same in
      let now : s' ≡ a = ground (arith, find_by_id-save j k s' t) in
      (
        s,
        rw (sym at) stored,
        keeps.opens_nothing (rw now opened),
        sym keeps.same_connector ∙ ap (λ (x : ChargingSession). x.connector_id) now,
        sym keeps.same_driver ∙ ap (λ (x : ChargingSession). x.user_id) now,
      )
  | inr other ↦
      let before : find_by_id j t ≡ some a = ground (arith, find_by_id-save j k s' t) in
      (a, before, opened, refl, refl)
]

pub save-IsExclusive :
    (k : ℕ) (s s' : ChargingSession) (t : Table ChargingSession)
    → find_by_id k t ≡ some s
    → Keeps s s'
    → IsExclusive t
    → IsExclusive (save k s' t)
save-IsExclusive k s s' t stored keeps h = record {
  connector = λ i j a b found_a found_b open_a open_b same.
      let (a₀, was_a, opened_a, c_a, d_a) = origin k s s' t i a stored keeps found_a open_a in
      let (b₀, was_b, opened_b, c_b, d_b) = origin k s s' t j b stored keeps found_b open_b in
      h.connector i j a₀ b₀ was_a was_b opened_a opened_b (c_a ∙ same ∙ sym c_b);
  driver = λ i j a b found_a found_b open_a open_b same.
      let (a₀, was_a, opened_a, c_a, d_a) = origin k s s' t i a stored keeps found_a open_a in
      let (b₀, was_b, opened_b, c_b, d_b) = origin k s s' t j b stored keeps found_b open_b in
      h.driver i j a₀ b₀ was_a was_b opened_a opened_b (d_a ∙ same ∙ sym d_b);
}

-- A session of the grown table is the new one or stood there before.
created :
    (k : ℕ) (s : ChargingSession) (t : Table ChargingSession) (j : ℕ) (a : ChargingSession)
    → find_by_id j (create k s t) ≡ some a
    → (find_by_id j t ≡ some a) ⊎ ((j ≡ k) × (a ≡ s))
created k s t j a found = elim (Option-cases (find_by_id j t)) [
  | inr (b, there) ↦ inl (ground (arith, find_by_id-create j k s t))
  | inl missing ↦ inr (
    ground (arith, find_by_id-create j k s t, ==_iff k j),
    ground (arith, find_by_id-create j k s t, ==_iff k j),
  )
]

-- Nobody among the open sessions has the connector or the driver of the new session.
abbrev Unclaimed : ChargingSession → Table ChargingSession → Type 0
Unclaimed s t =
    (j : ℕ) (a : ChargingSession)
    → find_by_id j t ≡ some a
    → is_open a.status ≡ true
    → (a.connector_id ≢ s.connector_id) × (a.user_id ≢ s.user_id)

-- Two sessions of the grown table that agree on a key are one, if no old one agrees with the new one.
unique_key :
    (f : ChargingSession → ℕ) (i j k : ℕ) (a b s : ChargingSession) (t : Table ChargingSession)
    → (find_by_id i t ≡ some a) ⊎ ((i ≡ k) × (a ≡ s))
    → (find_by_id j t ≡ some b) ⊎ ((j ≡ k) × (b ≡ s))
    → (find_by_id i t ≡ some a → find_by_id j t ≡ some b → i ≡ j)
    → (find_by_id i t ≡ some a → f a ≢ f s)
    → (find_by_id j t ≡ some b → f b ≢ f s)
    → f a ≡ f b
    → i ≡ j
unique_key f i j k a b s t (inl was_a) (inl was_b) old free_a free_b same = old was_a was_b
unique_key f i j k a b s t (inl was_a) (inr (at, new)) old free_a free_b same =
    absurd (free_a was_a (same ∙ ap f new))
unique_key f i j k a b s t (inr (at, new)) (inl was_b) old free_a free_b same =
    absurd (free_b was_b (sym same ∙ ap f new))
unique_key f i j k a b s t (inr (at, new)) (inr (at', new')) old free_a free_b same = at ∙ sym at'

create-IsExclusive :
    (k : ℕ) (s : ChargingSession) (t : Table ChargingSession)
    → IsExclusive t
    → Unclaimed s t
    → IsExclusive (create k s t)
create-IsExclusive k s t h free = record {
  connector = λ i j a b found_a found_b open_a open_b same.
      unique_key (λ (x : ChargingSession). x.connector_id) i j k a b s t (created k s t i a found_a)
        (created k s t j b found_b)
        (λ was_a was_b. h.connector i j a b was_a was_b open_a open_b same)
        (λ was_a. (free i a was_a open_a).0) (λ was_b. (free j b was_b open_b).0) same;
  driver = λ i j a b found_a found_b open_a open_b same.
      unique_key (λ (x : ChargingSession). x.user_id) i j k a b s t (created k s t i a found_a)
        (created k s t j b found_b) (λ was_a was_b. h.driver i j a b was_a was_b open_a open_b same)
        (λ was_a. (free i a was_a open_a).1) (λ was_b. (free j b was_b open_b).1) same;
}

abbrev pub open_of : ℕ → ChargingSession → Bool
open_of user_id o = o.user_id == user_id && is_open o.status

abbrev pub open_on : ℕ → ChargingSession → Bool
open_on connector_id o = o.connector_id == connector_id && is_open o.status

unclaimed :
    (s : ChargingSession) (t : Table ChargingSession)
    → find_one (open_of s.user_id) t ≡ none
    → find_one (open_on s.connector_id) t ≡ none
    → Unclaimed s t
unclaimed s t no_driver no_connector j a there opened = (
  λ same.
      ground (arith, find_one_complete (open_on s.connector_id) t j a no_connector there, opened),
  λ same. ground (arith, find_one_complete (open_of s.user_id) t j a no_driver there, opened),
)

-- Creating a session keeps one open session for each connector and for each driver, whatever session
-- is asked for: the insert is refused where it would be a second one.
pub create_session-IsExclusive :
    (ids : ObjectIds) (s : ChargingSession) (db : Store)
    → IsExclusive db.sessions
    → IsExclusive (create_session ids s db).1.sessions
unfolding create_session
create_session-IsExclusive ids s db h =
    elim (Option-cases (find_one (open_of s.user_id) db.sessions)) [
      | inr (other, found) ↦ rw (found, create_session) h
      | inl no_driver ↦ elim (Option-cases (find_one (open_on s.connector_id) db.sessions)) [
        | inr (other, found) ↦ rw (no_driver, found, create_session) h
        | inl no_connector ↦
            elim (Option-cases
              (find_one (λ (o : ChargingSession). o.id_tag == s.id_tag) db.sessions)) [
                | inr (other, found) ↦ rw (no_driver, no_connector, found, create_session) h
                | inl no_tag ↦
                    rw (no_driver, no_connector, no_tag, create_session)
                      (create-IsExclusive (ids.fresh _ db.sessions) s db.sessions h
                        (unclaimed s db.sessions no_driver no_connector))
              ]
      ]
    ]
