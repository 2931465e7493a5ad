-- ===== src/Backend/AgentKyc/Reviews.antt =====
-- How an agent comes to be approved (`backend/src/agent-kyc-service.ts`).
use swift_remit.Prelude.{
  ℕ, ◌≡◌, ◌≢◌, refl, sym, ◌∙◌, ◌⊎◌, inl, inr, Bool, true, false, Option, some, List, [], ◌∷◌,
  Bool-cases, Option-cases,
}
use swift_remit.Prelude.Dict.{Text, text_eq, lookup}
use swift_remit.Prelude.Strings.{text}
use swift_remit.Prelude.Result.{ok, err, Result-cases}
use swift_remit.Backend.AgentKyc.{
  AgentKycStatus, AgentKycStatus-discrete, approved, same_review, AgentKycRecord, AgentPayload,
  AgentDb, CustomerData, Sep12World, truthy_text, has_sep12_config, customer_status, get_agent_kyc,
  record_of, pushed, submit_kyc, subject_of, review_kyc, sync_sep12_status,
}
use swift_remit.Backend.AgentKyc.Stored.{
  status_of_agent, IsFiled, stored-IsFiled, found_at, stored-status,
}

-- A call of the service.
pub data AgentCall : Type 0 where
  submits : Sep12World → AgentPayload → AgentCall
  reviews : Text → AgentKycStatus → Option Text → ℕ → AgentCall
  syncs : Sep12World → Text → AgentCall

unfoldable pub run_agents : List AgentCall → AgentDb → AgentDb
unfolding submit_kyc review_kyc sync_sep12_status
run_agents [] db = db
run_agents (submits w p ∷ calls) db = run_agents calls (submit_kyc w p db).1
run_agents (reviews i status reason now ∷ calls) db =
    run_agents calls (review_kyc i status reason now db).1
run_agents (syncs w i ∷ calls) db = run_agents calls (sync_sep12_status w i db).1

-- Whether some customer of the anchor is accepted: what the anchor says of the customer is given.
unfoldable pub accepts : Sep12World → Text → Bool
unfolding customer_status
accepts w customer = elim (w.get_customer customer) [
  | err e ↦ false
  | ok answer ↦ same_review (customer_status answer).0 approved
]

-- A review of the agent that approves, or a look at the anchor for the agent, who is accepted there.
pub data Approval : Text → AgentCall → Type 0 where
  by_review :
      (i : Text) (reason : Option Text) (now : ℕ) → Approval i (reviews i approved reason now)
  by_anchor :
      (i : Text) (w : Sep12World) (customer : Text)
      → accepts w customer ≡ true
      → Approval i (syncs w i)

-- Some call of a list.
pub data Some (P : AgentCall → Type 0) : List AgentCall → Type 0 where
  here : (c : AgentCall) (calls : List AgentCall) → P c → Some P (c ∷ calls)
  there : (c : AgentCall) (calls : List AgentCall) → Some P calls → Some P (c ∷ calls)

-- The record that is submitted is not an approved one.
pushed-not : (w : Sep12World) (p : AgentPayload) → (pushed w (record_of p w.now)).status ≢ approved
unfolding pushed record_of
pushed-not w p = elim (Bool-cases (has_sep12_config w)) [
  | inr off ↦ rw (off, pushed) (λ e. cc e)
  | inl on ↦ elim (Result-cases (w.put_customer (record_of p w.now))) [
    | inr (why, failed) ↦ rw (on, pushed, failed) (λ e. cc e)
    | inl (customer, put) ↦ elim (Option-cases (truthy_text customer)) [
      | inl nobody ↦ rw (on, pushed, put, nobody) (λ e. cc e)
      | inr (c, made) ↦ rw (on, pushed, put, made) (λ e. cc e)
    ]
  ]
]

-- What one call does.
Kept : AgentDb → AgentDb → AgentCall → Type 0
Kept db after c =
    IsFiled after
    × ((j : Text)
        → status_of_agent j after ≡ some approved
        → (status_of_agent j db ≡ some approved) ⊎ Approval j c)

submit_kyc-Kept :
    (w : Sep12World) (p : AgentPayload) (db : AgentDb)
    → IsFiled db
    → Kept db (submit_kyc w p db).1 (submits w p)
unfolding submit_kyc Kept
submit_kyc-Kept w p db filed =
    let r = pushed w (record_of p w.now) in
    (
      stored-IsFiled r r.contact_email (text "Agent KYC submitted") db filed,
      (λ j h. elim (stored-status r r.contact_email (text "Agent KYC submitted") db j h) [
        | inl before ↦ inl before
        | inr (mine, is) ↦ absurd (pushed-not w p is)
      ]),
    )

review_kyc-Kept :
    (i : Text) (status : AgentKycStatus) (reason : Option Text) (now : ℕ) (db : AgentDb)
    → IsFiled db
    → IsFiled (review_kyc i status reason now db).1
      × ((j : Text)
          → status_of_agent j (review_kyc i status reason now db).1 ≡ some approved
          → (status_of_agent j db ≡ some approved) ⊎ ((i ≡ j) × (status ≡ approved)))
unfolding review_kyc
review_kyc-Kept i status reason now db filed = elim (Option-cases (get_agent_kyc i db)) [
  | inl absent ↦ rw (absent, review_kyc) (filed, (λ j h. inl h))
  | inr (existing, found) ↦
      let updated : AgentKycRecord = record existing {
        status = status;
        rejection_reason = reason;
        reviewed_at = some now;
      } in
      rw (found, review_kyc)
        (
          stored-IsFiled updated updated.contact_email (subject_of status) db filed,
          (λ j h. elim (stored-status updated updated.contact_email (subject_of status) db j h) [
            | inl before ↦ inl before
            | inr (mine, is) ↦
                inr (sym (filed i existing (found_at i db existing found)) ∙ mine, is)
          ]),
        )
]

is_approved : (a : AgentKycStatus) → a ≡ approved → same_review a approved ≡ true
unfolding AgentKycStatus-discrete
is_approved a e = rw e refl

accepts_answer :
    (w : Sep12World) (customer : Text) (answer : CustomerData)
    → w.get_customer customer ≡ ok answer
    → (customer_status answer).0 ≡ approved
    → accepts w customer ≡ true
unfolding accepts
accepts_answer w customer answer e is = rw (e, accepts) (is_approved (customer_status answer).0 is)

sync_sep12_status-Kept :
    (w : Sep12World) (i : Text) (db : AgentDb)
    → IsFiled db
    → Kept db (sync_sep12_status w i db).1 (syncs w i)
unfolding sync_sep12_status Kept
sync_sep12_status-Kept w i db filed = elim (Option-cases (get_agent_kyc i db)) [
  | inl absent ↦ rw (absent, sync_sep12_status) (filed, (λ j h. inl h))
  | inr (existing, found) ↦ elim (Option-cases (truthy_text existing.sep12_customer_id)) [
    | inl nobody ↦ rw (found, sync_sep12_status, nobody) (filed, (λ j h. inl h))
    | inr (customer, is) ↦ elim (Bool-cases (has_sep12_config w)) [
      | inr off ↦ rw (found, sync_sep12_status, is, off) (filed, (λ j h. inl h))
      | inl on ↦ elim (Result-cases (w.get_customer customer)) [
        | inr (why, failed) ↦ rw (found, sync_sep12_status, is, on, failed) (filed, (λ j h. inl h))
        | inl (answer, got) ↦
            elim (Bool-cases (same_review (customer_status answer).0 existing.status)) [
              | inl same ↦ rw (found, sync_sep12_status, is, on, got, same) (filed, (λ j h. inl h))
              | inr other ↦
                  let reviewed =
                    review_kyc-Kept i (customer_status answer).0 (customer_status answer).1 w.now db
                      filed in
                  rw (found, sync_sep12_status, is, on, got, other)
                    (
                      reviewed.0,
                      (λ j h. elim (reviewed.1 j h) [
                        | inl before ↦ inl before
                        | inr (mine, yes_it_is) ↦ inr (
                            rw (← mine) (
                              by_anchor i w customer
                                (accepts_answer w customer answer got yes_it_is)))
                      ]),
                    )
            ]
      ]
    ]
  ]
]

reviews-Kept :
    (i : Text) (status : AgentKycStatus) (reason : Option Text) (now : ℕ) (db : AgentDb)
    → IsFiled db
    → Kept db (review_kyc i status reason now db).1 (reviews i status reason now)
unfolding Kept
reviews-Kept i status reason now db filed =
    let reviewed = review_kyc-Kept i status reason now db filed in
    (
      reviewed.0,
      (λ j h. elim (reviewed.1 j h) [
        | inl before ↦ inl before
        | inr (mine, is) ↦ inr (rw (is, ← mine) (by_review i reason now))
      ]),
    )

approved_before :
    (c : AgentCall) (calls : List AgentCall) (db after : AgentDb)
    → Kept db after c
    → (j : Text) → (status_of_agent j after ≡ some approved) ⊎ Some (Approval j) calls
    → (status_of_agent j db ≡ some approved) ⊎ Some (Approval j) (c ∷ calls)
unfolding Kept
approved_before c calls db after kept j (inr later) = inr (there c calls later)
approved_before c calls db after kept j (inl h) = elim (kept.1 j h) [
  | inl before ↦ inl before
  | inr now ↦ inr (here c calls now)
]

run_agents-approved :
    (calls : List AgentCall) (db : AgentDb)
    → IsFiled db
    → (j : Text) → status_of_agent j (run_agents calls db) ≡ some approved
    → (status_of_agent j db ≡ some approved) ⊎ Some (Approval j) calls
unfolding run_agents Kept
run_agents-approved [] db filed j h = inl h
run_agents-approved (submits w p ∷ calls) db filed j h =
    let kept = submit_kyc-Kept w p db filed in
    approved_before (submits w p) calls db (submit_kyc w p db).1 kept j
      (run_agents-approved calls (submit_kyc w p db).1 kept.0 j h)
run_agents-approved (reviews i status reason now ∷ calls) db filed j h =
    let kept = reviews-Kept i status reason now db filed in
    approved_before (reviews i status reason now) calls db (review_kyc i status reason now db).1
      kept j (run_agents-approved calls (review_kyc i status reason now db).1 kept.0 j h)
run_agents-approved (syncs w i ∷ calls) db filed j h =
    let kept = sync_sep12_status-Kept w i db filed in
    approved_before (syncs w i) calls db (sync_sep12_status w i db).1 kept j
      (run_agents-approved calls (sync_sep12_status w i db).1 kept.0 j h)

none-IsFiled : IsFiled (record { agents = []; sent = [] })
unfolding lookup
none-IsFiled i r found = absurd (cc found)

none_approved : (j : Text) → status_of_agent j (record { agents = []; sent = [] }) ≢ some approved
unfolding status_of_agent lookup
none_approved j h = cc h

-- From an empty table on, an agent is approved only when a review of the agent said so, or when the anchor
-- answered, as the status of the agent was asked for, that a customer is accepted.
pub run_agents-Approval :
    (calls : List AgentCall) (j : Text)
    → status_of_agent j (run_agents calls (record { agents = []; sent = [] })) ≡ some approved
    → Some (Approval j) calls
run_agents-Approval calls j h =
    elim (run_agents-approved calls (record { agents = []; sent = [] }) none-IsFiled j h) [
      | inl before ↦ absurd (none_approved j before)
      | inr some_call ↦ some_call
    ]
