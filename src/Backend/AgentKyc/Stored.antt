-- ===== src/Backend/AgentKyc/Stored.antt =====
-- The rows of the table `agent_kyc` after `upsertAgentKyc` (`backend/src/database.ts`).
use swift_remit.Prelude.{
  ◌≡◌, refl, sym, ap, ◌∙◌, ◌⊎◌, inl, inr, true, false, Option, none, some, if◌then◌else◌,
  Bool-cases, Option-cases,
}
use swift_remit.Prelude.Dict.{Text, text_eq, text_beq_iff, ◌==◌, lookup, insert, lookup-insert}
use swift_remit.Backend.AgentKyc.{
  AgentKycStatus, approved, AgentKycRecord, AgentDb, truthy_text, get_agent_kyc, column_values,
  stored_row, upsert_agent_kyc, send_to,
}

abbrev pub read : Option AgentKycRecord → Option AgentKycStatus
read none = none
read (some r) = some r.status

unfoldable pub status_of_agent : Text → AgentDb → Option AgentKycStatus
status_of_agent i db = read (lookup i db.agents)

-- Each record stands under its agent.
abbrev pub IsFiled : AgentDb → Type 0
IsFiled db = (i : Text) (r : AgentKycRecord) → lookup i db.agents ≡ some r → r.agent_id ≡ i

stored_row-status :
    (o : Option AgentKycRecord) (r : AgentKycRecord) → (stored_row o r).status ≡ r.status
unfolding stored_row column_values
stored_row-status none r = refl
stored_row-status (some old) r = refl

stored_row-id :
    (o : Option AgentKycRecord) (r : AgentKycRecord) → (stored_row o r).agent_id ≡ r.agent_id
unfolding stored_row column_values
stored_row-id none r = refl
stored_row-id (some old) r = refl

send_to-agents :
    (a : Option Text) (subject : Text) (db : AgentDb) → (send_to a subject db).agents ≡ db.agents
unfolding send_to
send_to-agents a subject db = elim (Option-cases (truthy_text a)) [
  | inl nobody ↦ rw (nobody, send_to) refl
  | inr (t, e) ↦ rw (e, send_to) refl
]

upsert_agents :
    (r : AgentKycRecord) (db : AgentDb)
    → (upsert_agent_kyc r db).agents
      ≡ insert r.agent_id (stored_row (lookup r.agent_id db.agents) r) db.agents
unfolding upsert_agent_kyc
upsert_agents r db = refl

-- The state after a record was stored, and perhaps an e-mail sent.
abbrev pub stored : AgentKycRecord → Option Text → Text → AgentDb → AgentDb
stored r a subject db = send_to a subject (upsert_agent_kyc r db)

lookup-stored :
    (r : AgentKycRecord) (a : Option Text) (subject : Text) (db : AgentDb) (j : Text)
    → lookup j (stored r a subject db).agents ≡ (
        if r.agent_id == j
        then some (stored_row (lookup r.agent_id db.agents) r)
        else lookup j db.agents)
lookup-stored r a subject db j =
    ap (lookup j) (send_to-agents a subject (upsert_agent_kyc r db) ∙ upsert_agents r db)
    ∙ lookup-insert r.agent_id j (stored_row (lookup r.agent_id db.agents) r) db.agents

stored_here :
    (r : AgentKycRecord) (a : Option Text) (subject : Text) (db : AgentDb) (j : Text)
    → (r.agent_id == j) ≡ true
    → lookup j (stored r a subject db).agents ≡ some (stored_row (lookup r.agent_id db.agents) r)
stored_here r a subject db j same = lookup-stored r a subject db j ∙ rw same refl

stored_elsewhere :
    (r : AgentKycRecord) (a : Option Text) (subject : Text) (db : AgentDb) (j : Text)
    → (r.agent_id == j) ≡ false
    → lookup j (stored r a subject db).agents ≡ lookup j db.agents
stored_elsewhere r a subject db j other = lookup-stored r a subject db j ∙ rw other refl

same_record : (a b : AgentKycRecord) → some a ≡ some b → a ≡ b
same_record a b = ap (λ (o : Option AgentKycRecord). elim o [ none ↦ a | some t ↦ t ])

pub stored-IsFiled :
    (r : AgentKycRecord) (a : Option Text) (subject : Text) (db : AgentDb)
    → IsFiled db
    → IsFiled (stored r a subject db)
stored-IsFiled r a subject db filed j s found = elim (Bool-cases (r.agent_id == j)) [
  | inl same ↦
      let row = stored_row (lookup r.agent_id db.agents) r in
      let e : some row ≡ some s = sym (stored_here r a subject db j same) ∙ found in
      ap (λ (k : AgentKycRecord). k.agent_id) (sym (same_record row s e))
      ∙ stored_row-id (lookup r.agent_id db.agents) r
      ∙ (text_beq_iff r.agent_id j).0 same
  | inr other ↦ filed j s (sym (stored_elsewhere r a subject db j other) ∙ found)
]

pub same_value : (a b : AgentKycStatus) → some a ≡ some b → a ≡ b
same_value a b = ap (λ (o : Option AgentKycStatus). elim o [ none ↦ a | some t ↦ t ])

pub found_at :
    (i : Text) (db : AgentDb) (r : AgentKycRecord)
    → get_agent_kyc i db ≡ some r
    → lookup i db.agents ≡ some r
unfolding get_agent_kyc
found_at i db r found = found

pub stored-status :
    (r : AgentKycRecord) (a : Option Text) (subject : Text) (db : AgentDb) (j : Text)
    → status_of_agent j (stored r a subject db) ≡ some approved
    → (status_of_agent j db ≡ some approved) ⊎ ((r.agent_id ≡ j) × (r.status ≡ approved))
unfolding status_of_agent
stored-status r a subject db j h = elim (Bool-cases (r.agent_id == j)) [
  | inl same ↦
      let row = stored_row (lookup r.agent_id db.agents) r in
      let e : some row.status ≡ some approved =
        sym (ap read (stored_here r a subject db j same)) ∙ h in
      inr (
        (text_beq_iff r.agent_id j).0 same,
        sym (stored_row-status (lookup r.agent_id db.agents) r) ∙ same_value row.status approved e,
      )
  | inr other ↦ inl (sym (ap read (stored_elsewhere r a subject db j other)) ∙ h)
]
