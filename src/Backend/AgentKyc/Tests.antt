-- ===== src/Backend/AgentKyc/Tests.antt =====
-- The theorem on the KYC of agents at a concrete input.
use swift_remit.Prelude.{◌≡◌, refl, none, some, List, [], ◌∷◌}
use swift_remit.Prelude.Dict.{text_eq, lookup, insert}
use swift_remit.Prelude.Strings.{text}
use swift_remit.Prelude.Result.{ok}
use swift_remit.Backend.AgentKyc.{
  AgentKycStatus-discrete, approved, AgentPayload, CustomerData, Sep12World,
}
use swift_remit.Backend.AgentKyc.Stored.{status_of_agent}
use swift_remit.Backend.AgentKyc.Reviews.{
  AgentCall, submits, syncs, Approval, Some, run_agents, run_agents-Approval,
}

abbrev accepted : CustomerData
accepted = record { status = some (text "Accepted"); message = none }

abbrev anchor : Sep12World
anchor = record {
  kyc_server = some (text "https://k");
  auth_token = some (text "t");
  put_customer = λ r. ok (some (text "c1"));
  get_customer = λ c. ok accepted;
  now = 7;
}

abbrev form : AgentPayload
form = record {
  agent_id = text "a";
  business_registration = none;
  owner_id = some (text "o");
  operating_country = none;
  payout_address = none;
  contact_email = some (text "a@b");
  submitted_at = none;
}

abbrev calls : List AgentCall
calls = submits anchor form ∷ syncs anchor (text "a") ∷ []

approved_run :
    status_of_agent (text "a") (run_agents calls (record { agents = []; sent = [] }))
    ≡ some approved
unfolding run_agents status_of_agent lookup insert AgentKycStatus-discrete
approved_run = refl

run_agents-Approval_example : Some (Approval (text "a")) calls
run_agents-Approval_example = run_agents-Approval calls (text "a") approved_run
