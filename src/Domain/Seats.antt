-- ===== src/Domain/Seats.antt =====
-- backend/src/crosspatch/domain/seats.py: the fixed policy of the five seats.
use cross_patch.Prelude.{ℕ, String, Bool, true, false, List, [], ◌∷◌}
use cross_patch.Domain.Enums.{Seat, prosecutor, inspector, counsel, magistrate, bailiff, Effort}

pub record SeatSpec : Type 0 where
  pub seat : Seat
  pub model : String
  pub initial_effort : Effort
  pub effort_ladder : List Effort
  pub role : String
  pub tier_rationale : String
  pub max_output_tokens : ℕ
  pub max_escalations : ℕ
  pub human_escalation_only : Bool

-- `_SPEC_BY_SEAT`, the dictionary of SEAT_SPECS.
unfoldable pub spec_by_seat : Seat → SeatSpec
spec_by_seat prosecutor = record {
  seat = prosecutor;
  model = "gpt-5.6-luna";
  initial_effort = Effort.low;
  effort_ladder = Effort.low ∷ Effort.medium ∷ Effort.high ∷ [];
  role = "Challenges causal claims and proposed patches.";
  tier_rationale = "Fast adversarial review starts at the lowest effective effort.";
  max_output_tokens = 3072;
  max_escalations = 2;
  human_escalation_only = false;
}
spec_by_seat inspector = record {
  seat = inspector;
  model = "gpt-5.6-terra";
  initial_effort = Effort.medium;
  effort_ladder = Effort.medium ∷ Effort.high ∷ Effort.xhigh ∷ [];
  role = "Builds the evidence-linked failure mechanism.";
  tier_rationale = "Balanced analysis for multi-source incident evidence.";
  max_output_tokens = 3072;
  max_escalations = 2;
  human_escalation_only = false;
}
spec_by_seat counsel = record {
  seat = counsel;
  model = "gpt-5.6-terra";
  initial_effort = Effort.medium;
  effort_ladder = Effort.medium ∷ Effort.high ∷ Effort.xhigh ∷ [];
  role = "Proposes the smallest evidence-consistent diff.";
  tier_rationale = "Balanced code reasoning with typed test intentions.";
  max_output_tokens = 6144;
  max_escalations = 2;
  human_escalation_only = false;
}
spec_by_seat magistrate = record {
  seat = magistrate;
  model = "gpt-5.6-sol";
  initial_effort = Effort.medium;
  effort_ladder = Effort.medium ∷ Effort.high ∷ Effort.xhigh ∷ [];
  role = "Returns the fail-closed incident verdict.";
  tier_rationale = "Highest-reliability review at the human authority boundary.";
  max_output_tokens = 8192;
  max_escalations = 2;
  human_escalation_only = true;
}
spec_by_seat bailiff = record {
  seat = bailiff;
  model = "gpt-5.6-luna";
  initial_effort = Effort.none;
  effort_ladder = Effort.none ∷ [];
  role = "Presents one approved warrant ID for execution.";
  tier_rationale = "No reasoning is needed for a single deterministic broker call.";
  max_output_tokens = 768;
  max_escalations = 0;
  human_escalation_only = false;
}
