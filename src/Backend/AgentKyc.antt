-- ===== src/Backend/AgentKyc.antt =====
-- `AgentKycService` (`backend/src/agent-kyc-service.ts`) with `upsertAgentKyc` and `getAgentKyc`
-- (`backend/src/database.ts`) over the table `agent_kyc`, whose `agent_id` is unique. The answers of the SEP-12
-- anchor, the configuration and the clock are parameters; e-mails, which are all sent, are kept as the
-- list of their receivers and subjects. The details of a business are kept as the text that is stored.
use swift_remit.Prelude.{
  ℕ, Bool, true, false, not, ◌&&◌, Option, none, some, List, [], ◌∷◌, ◌++◌, map, if◌then◌else◌,
}
use swift_remit.Prelude.Dict.{Text, text_eq, ◌==◌, Dict, lookup, insert}
use swift_remit.Prelude.Strings.{text, lower}
use swift_remit.Prelude.Result.{Result, ok, err, ⊤, Action}
pub mod Stored
pub mod Reviews
mod Tests

-- `AgentKycStatus`
pub data AgentKycStatus : Type 0 where
  submitted under_review approved rejected : AgentKycStatus

unfoldable pub AgentKycStatus-discrete : Discrete AgentKycStatus
AgentKycStatus-discrete = hlevel

abbrev pub same_review : AgentKycStatus → AgentKycStatus → Bool
same_review a b = elim (AgentKycStatus-discrete a b) [ yes h ↦ true | no h ↦ false ]

-- `AgentKycRecord`
pub record AgentKycRecord : Type 0 where
  pub agent_id : Text
  pub business_registration : Option Text
  pub owner_id : Option Text
  pub operating_country : Option Text
  pub payout_address : Option Text
  pub contact_email : Option Text
  pub status : AgentKycStatus
  pub rejection_reason : Option Text
  pub sep12_customer_id : Option Text
  pub submitted_at : ℕ
  pub reviewed_at : Option ℕ

-- What the form sends.
pub record AgentPayload : Type 0 where
  pub agent_id : Text
  pub business_registration : Option Text
  pub owner_id : Option Text
  pub operating_country : Option Text
  pub payout_address : Option Text
  pub contact_email : Option Text
  pub submitted_at : Option ℕ

pub record Email : Type 0 where
  pub receiver : Text
  pub subject : Text

pub record AgentDb : Type 0 where
  pub agents : Dict Text AgentKycRecord
  pub sent : List Email

-- What the anchor answers to GET /customer.
pub record CustomerData : Type 0 where
  pub status : Option Text
  pub message : Option Text

-- The two environment variables, the anchor, and the clock.
pub record Sep12World : Type 0 where
  pub kyc_server : Option Text
  pub auth_token : Option Text
  pub put_customer : AgentKycRecord → Result Text (Option Text)
  pub get_customer : Text → Result Text CustomerData
  pub now : ℕ

unfoldable pub truthy_text : Option Text → Option Text
truthy_text none = none
truthy_text (some []) = none
truthy_text (some (c ∷ cs)) = some (c ∷ cs)

-- `getSep12Config`, which has both variables or is null.
unfoldable pub has_sep12_config : Sep12World → Bool
unfolding truthy_text
has_sep12_config w = elim (truthy_text w.kyc_server) [
  | none ↦ false
  | some server ↦ elim (truthy_text w.auth_token) [ none ↦ false | some token ↦ true ]
]

-- `s.toUpperCase() === t`, for a lower-case `t` in ASCII.
unfoldable pub same_letters : Text → Text → Bool
same_letters s t = map lower s == t

-- `sep12GetCustomerStatus`, on the answer.
unfoldable pub customer_status : CustomerData → AgentKycStatus × Option Text
unfolding same_letters
customer_status c = elim c.status [
  | none ↦ (under_review, none)
  | some s ↦
      if same_letters s (text "accepted")
      then (approved, none)
      else if same_letters s (text "rejected")
      then (rejected, c.message)
      else (under_review, none)
]

-- `getAgentKyc`
unfoldable pub get_agent_kyc : Text → AgentDb → Option AgentKycRecord
get_agent_kyc i db = lookup i db.agents

-- The values of the statement: an empty text is NULL.
unfoldable pub column_values : AgentKycRecord → AgentKycRecord
unfolding truthy_text
column_values r = record r {
  business_registration = truthy_text r.business_registration;
  owner_id = truthy_text r.owner_id;
  operating_country = truthy_text r.operating_country;
  payout_address = truthy_text r.payout_address;
  contact_email = truthy_text r.contact_email;
  rejection_reason = truthy_text r.rejection_reason;
  sep12_customer_id = truthy_text r.sep12_customer_id;
}

-- ON CONFLICT: an update keeps the time of the first submission, and the customer of the anchor where the
-- record names none.
unfoldable pub stored_row : Option AgentKycRecord → AgentKycRecord → AgentKycRecord
unfolding column_values
stored_row none r = column_values r
stored_row (some old) r = record (column_values r) {
  submitted_at = old.submitted_at;
  sep12_customer_id = elim (column_values r).sep12_customer_id [
    | none ↦ old.sep12_customer_id
    | some c ↦ some c
  ];
}

-- `upsertAgentKyc`
unfoldable pub upsert_agent_kyc : AgentKycRecord → AgentDb → AgentDb
unfolding stored_row
upsert_agent_kyc r db = record db {
  agents = insert r.agent_id (stored_row (lookup r.agent_id db.agents) r) db.agents;
}

-- `sendEmail`, when there is an address.
unfoldable pub send_to : Option Text → Text → AgentDb → AgentDb
unfolding truthy_text
send_to address subject db = elim (truthy_text address) [
  | none ↦ db
  | some a ↦ record db { sent = db.sent ++ record { receiver = a; subject = subject } ∷ [] }
]

unfoldable pub record_of : AgentPayload → ℕ → AgentKycRecord
record_of p now = record {
  agent_id = p.agent_id;
  business_registration = p.business_registration;
  owner_id = p.owner_id;
  operating_country = p.operating_country;
  payout_address = p.payout_address;
  contact_email = p.contact_email;
  status = submitted;
  rejection_reason = none;
  sep12_customer_id = none;
  submitted_at = elim p.submitted_at [ none ↦ now | some t ↦ t ];
  reviewed_at = none;
}

-- The push to the anchor: a failure is caught.
unfoldable pub pushed : Sep12World → AgentKycRecord → AgentKycRecord
unfolding has_sep12_config truthy_text
pushed w r =
    if has_sep12_config w
    then elim (w.put_customer r) [
      | err e ↦ r
      | ok customer ↦ elim (truthy_text customer) [
        | none ↦ r
        | some c ↦ record r { sep12_customer_id = some c; status = under_review }
      ]
    ]
    else r

-- `submitKyc`
unfoldable pub submit_kyc : Sep12World → AgentPayload → AgentDb → AgentKycRecord × AgentDb
unfolding record_of pushed upsert_agent_kyc send_to
submit_kyc w p db =
    let r = pushed w (record_of p w.now) in
    (r, send_to r.contact_email (text "Agent KYC submitted") (upsert_agent_kyc r db))

unfoldable pub subject_of : AgentKycStatus → Text
subject_of approved = text "Agent KYC approved"
subject_of rejected = text "Agent KYC rejected"
subject_of under_review = text "Agent KYC under review"
subject_of submitted = []

-- `reviewKyc`
unfoldable pub review_kyc :
    Text → AgentKycStatus → Option Text → ℕ → Action AgentDb Text AgentKycRecord
unfolding get_agent_kyc upsert_agent_kyc send_to subject_of
review_kyc i status reason now db = elim (get_agent_kyc i db) [
  | none ↦ (err (text "Agent KYC not found"), db)
  | some existing ↦
      let updated : AgentKycRecord = record existing {
        status = status;
        rejection_reason = reason;
        reviewed_at = some now;
      } in
      (ok updated, send_to updated.contact_email (subject_of status) (upsert_agent_kyc updated db))
]

-- `syncSep12Status`
unfoldable pub sync_sep12_status : Sep12World → Text → AgentDb → Option AgentKycRecord × AgentDb
unfolding get_agent_kyc has_sep12_config truthy_text customer_status review_kyc
sync_sep12_status w i db = elim (get_agent_kyc i db) [
  | none ↦ (none, db)
  | some existing ↦ elim (truthy_text existing.sep12_customer_id) [
    | none ↦ (some existing, db)
    | some customer ↦
        if not (has_sep12_config w) then (some existing, db) else elim (w.get_customer customer) [
          | err e ↦ (some existing, db)
          | ok answer ↦
              let (status, reason) = customer_status answer in
              if same_review status existing.status
              then (some existing, db)
              else let after = (review_kyc i status reason w.now db).1 in
                (get_agent_kyc i after, after)
        ]
  ]
]
