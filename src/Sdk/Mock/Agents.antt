-- ===== src/Sdk/Mock/Agents.antt =====
-- The statistics of the agents.
use mathlib.Core.Path.{subst, sym}
use native.Mathlib.Nat.{div-lt_iff_lt-mul}
use swift_remit.Prelude.{
  ℕ, suc, ◌+◌, ◌-◌, ◌*◌, ◌/◌, ◌≤◌, ◌<◌, ◌≡◌, refl, ◌⊎◌, inl, inr, Bool, true, false, ◌||◌, some,
  List, [], ◌∷◌, arith, if◌then◌else◌, Bool-cases, Option-cases,
}
use swift_remit.Prelude.Dict.{
  Text, nat_eq, text_eq, lookup, has, insert, contains, remove, lookup-insert, has-insert,
  contains-add, ◌==◌, text_beq_iff,
}
use swift_remit.Sdk.Mock.Types.{AgentStats, Client, bumped, success_rate, bump_agent_stats}
use swift_remit.Sdk.Mock.Writes

some_inj : {s t : AgentStats} → some s ≡ some t → s ≡ t
some_inj h = cc

or_right : (a : Bool) {b : Bool} → b ≡ true → (a || b) ≡ true
or_right a h = ground arith

or_mono : (a : Bool) {b d : Bool} → (b ≡ true → d ≡ true) → (a || b) ≡ true → (a || d) ≡ true
or_mono true f h = refl
or_mono false f h = f h

-- The settlements that failed are among all, and the rate is at most 10000 basis points.
pub record IsFair (s : AgentStats) : Type 0 where
  pub failures : s.failed_settlements ≤ s.total_settlements
  pub rate : s.success_rate_bps ≤ 10000

success_rate-le : (good total : ℕ) → good ≤ total → 0 < total → success_rate good total ≤ 10000
unfolding success_rate
success_rate-le good total h p =
    let small : suc ((2 * (good * 10000) + total) / (2 * total)) ≤ 10001 =
      (div-lt_iff_lt-mul (omega arith)).1 (omega arith) in
    omega arith

bumped-IsFair : (s : AgentStats) (b : Bool) (now : ℕ) → IsFair s → IsFair (bumped s b now)
unfolding bumped
bumped-IsFair s true now h = ground (
  arith,
  success_rate-le (s.total_settlements + 1 - s.failed_settlements) (s.total_settlements + 1),
)
bumped-IsFair s false now h = ground (
  arith,
  success_rate-le (s.total_settlements + 1 - (s.failed_settlements + 1)) (s.total_settlements + 1),
)

-- What holds of the agents of a client.
pub record FairAgents (c : Client) : Type 0 where
  pub fair : (a : Text) (s : AgentStats) → lookup a c.agent_stats ≡ some s → IsFair s
  pub known : (a : Text) → contains a c.agents ≡ true → has a c.agent_stats ≡ true

abbrev pub SameAgents : Client → Client → Type 0
SameAgents c d = (d.agents ≡ c.agents) × (d.agent_stats ≡ c.agent_stats)

pub same-FairAgents : (c d : Client) → FairAgents c → SameAgents c d → FairAgents d
same-FairAgents c d h (a, s) = record { fair = rw s h.fair; known = rw (a, s) h.known }

-- The statistics of an agent are fair ones now, and no other agent is new.
stats-FairAgents :
    (c d : Client) (a : Text) (s : AgentStats)
    → FairAgents c
    → IsFair s
    → ((b : Text) → contains b d.agents ≡ true → (a == b || contains b c.agents) ≡ true)
    → d.agent_stats ≡ insert a s c.agent_stats
    → FairAgents d
stats-FairAgents c d a s h good ags sts = record {
  fair = λ b t e. fair_at b t (rw (sts, lookup-insert) at e);
  known = λ b e. rw (sts, has-insert) (or_mono (a == b) (h.known b) (ags b e));
}
  where
    fair_at :
        (b : Text) (t : AgentStats)
        → (if a == b then some s else lookup b c.agent_stats) ≡ some t
        → IsFair t
    fair_at b t e = elim (Bool-cases (a == b)) [
      | inl same ↦ subst IsFair (some_inj (rw same at e)) good
      | inr apart ↦ h.fair b t (rw apart at e)
    ]

-- `_bumpAgentStats`, in a client that is otherwise as far as its agents go.
bump-FairAgents :
    (c d : Client) (a : Text) (b : Bool) (t : ℕ)
    → FairAgents c
    → d.agents ≡ c.agents
    → d.agent_stats ≡ (bump_agent_stats a b t c).1.agent_stats
    → FairAgents d
unfolding bump_agent_stats
bump-FairAgents c d a b t h ags sts = elim (Option-cases (lookup a c.agent_stats)) [
  | inl missing ↦ same-FairAgents c d h (ags, ground arith)
  | inr (s, found) ↦
      stats-FairAgents c d a (bumped s b t) h (bumped-IsFair s b t (h.fair a s found))
        (λ x e. or_right (a == x) (rw ags at e)) (ground arith)
]

-- Each of the two settlements bumps the statistics of the agent, or throws and does nothing.
abbrev pub Bumps : Client → Client → Text → Bool → ℕ → Type 0
Bumps c d a b t =
    (d ≡ c) ⊎ ((d.agents ≡ c.agents) × (d.agent_stats ≡ (bump_agent_stats a b t c).1.agent_stats))

pub Bumps-FairAgents :
    (c d : Client) (a : Text) (b : Bool) (t : ℕ) → FairAgents c → Bumps c d a b t → FairAgents d
Bumps-FairAgents c d a b t h (inl same) = subst FairAgents (sym same) h
Bumps-FairAgents c d a b t h (inr (ags, sts)) = bump-FairAgents c d a b t h ags sts

pub confirm_payout-Bumps :
    (a : Text) (i now : ℕ) (c : Client)
    → Bumps c (Writes.confirm_payout a i now c).1 a true (now / 1000)
unfolding Writes.confirm_payout bump_agent_stats
confirm_payout-Bumps a i now c = ground arith

pub mark_failed-Bumps :
    (a : Text) (i now : ℕ) (c : Client)
    → Bumps c (Writes.mark_failed a i now c).1 a false (now / 1000)
unfolding Writes.mark_failed bump_agent_stats
mark_failed-Bumps a i now c = ground arith

remove-contains :
    (a b : Text) (xs : List Text) → contains b (remove a xs) ≡ true → contains b xs ≡ true
unfolding contains remove
remove-contains a b [] h = h
remove-contains a b (x ∷ xs) h = ground (arith, remove-contains a b xs)

pub remove_agent-FairAgents :
    (a : Text) (c : Client) → FairAgents c → FairAgents (Writes.remove_agent a c).1
unfolding Writes.remove_agent
remove_agent-FairAgents a c h = elim (Bool-cases (contains a c.agents)) [
  | inl there ↦ record {
    fair = λ b s e. h.fair b s (ground arith);
    known = λ b e. ground (arith, h.known b, remove-contains a b c.agents);
  }
  | inr gone ↦ same-FairAgents c _ h (ground arith)
]

fresh-IsFair : (now : ℕ) → IsFair (Writes.fresh_stats now)
unfolding Writes.fresh_stats
fresh-IsFair now = ground arith

pub seed_agent-FairAgents :
    (a : Text) (now : ℕ) (c : Client) → FairAgents c → FairAgents (Writes.seed_agent a now c)
unfolding Writes.seed_agent
seed_agent-FairAgents a now c h = elim (Bool-cases (has a c.agent_stats)) [
  | inl old ↦ record {
    fair = λ b s e. h.fair b s (ground arith);
    known = λ b e. ground (arith, contains-add a b c.agents, text_beq_iff a b, h.known b);
  }
  | inr new ↦
      stats-FairAgents c _ a (Writes.fresh_stats now) h (fresh-IsFair now)
        (λ b e. rw contains-add at e) (ground arith)
]
