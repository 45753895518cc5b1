-- ===== src/Kyc.antt =====
-- modules/kyc/domain/kyc-stage-policy.ts: staged verification. A level is the number of stages that
-- are complete, from 0 to 3.
pub mod Stages
mod Examples
use ajocloud_backend.Prelude.{
  ℕ, zero, suc, ◌+◌, Bool, true, false, ◌&&◌, ◌||◌, Option, none, some, List, [], ◌∷◌, ◌++◌, leb,
  ltb, ◌==◌, if◌then◌else◌, every, some_of, map,
}
use ajocloud_backend.Prelude.Text.{Text, codes}

pub data KycStage : Type 0 where
  stage_1 stage_2 stage_3 : KycStage

abbrev pub number : KycStage → ℕ
number stage_1 = 1
number stage_2 = 2
number stage_3 = 3

-- `none` is spelled `no_check`.
pub data CheckState : Type 0 where
  no_check pending passed failed : CheckState

pub record KycFacts : Type 0 where
  pub account_active : Bool
  pub basic_info_complete : Bool
  pub pin_set : Bool
  pub nin : CheckState
  pub nin_document_uploaded : Bool
  pub address : CheckState
  pub restricted : Bool

pub data StageStatus : Type 0 where
  complete in_progress under_review locked : StageStatus

pub data RequirementKey : Type 0 where
  account basic_info pin nin nin_document address : RequirementKey

pub data RequirementState : Type 0 where
  complete pending failed missing : RequirementState

pub record StageRequirement : Type 0 where
  pub key : RequirementKey
  pub label : Text
  pub state : RequirementState

pub record StageView : Type 0 where
  pub stage : KycStage
  pub title : Text
  pub status : StageStatus
  pub requirements : List StageRequirement
  pub unlocks : List Text

abbrev pub stage_title : KycStage → Text
stage_title stage_1 = codes "Account"
stage_title stage_2 = codes "Identity"
stage_title stage_3 = codes "Address"

abbrev pub stage_unlocks : KycStage → List Text
stage_unlocks stage_1 =
    codes "Join Ajo groups and Akawo pools" ∷ codes "Make payments and contributions" ∷ []
stage_unlocks stage_2 =
    codes "Withdraw to your bank account" ∷ codes "Send money to other members" ∷ []
stage_unlocks stage_3 =
    codes "Create and run groups as an admin" ∷ codes "Collect money from members" ∷ []

abbrev pub requirement_state : CheckState → RequirementState
requirement_state passed = RequirementState.complete
requirement_state CheckState.pending = RequirementState.pending
requirement_state CheckState.failed = RequirementState.failed
requirement_state no_check = missing

abbrev pub flag : Bool → RequirementState
flag true = RequirementState.complete
flag false = missing

abbrev requirement : RequirementKey → Text → RequirementState → StageRequirement
requirement key label state = record { key = key; label = label; state = state }

unfoldable pub stage_requirements : KycFacts → KycStage → List StageRequirement
stage_requirements facts stage_1 =
    requirement account (codes "Sign up and verify your email") (flag facts.account_active)
    ∷ requirement basic_info (codes "Add your date of birth, gender and occupation")
        (flag facts.basic_info_complete)
    ∷ []
stage_requirements facts stage_2 =
    requirement pin (codes "Set your transaction PIN") (flag facts.pin_set)
    ∷ requirement nin (codes "Verify your NIN") (requirement_state facts.nin)
    ∷ requirement nin_document (codes "Upload a photo of your NIN slip or card")
        (flag facts.nin_document_uploaded)
    ∷ []
stage_requirements facts stage_3 =
    requirement address (codes "Confirm the address on your NIN") (requirement_state facts.address)
    ∷ []

abbrev pub is_complete : StageRequirement → Bool
is_complete r = elim r.state [ RequirementState.complete ↦ true | _ ↦ false ]

abbrev pub is_pending : StageRequirement → Bool
is_pending r = elim r.state [ RequirementState.pending ↦ true | _ ↦ false ]

-- `requirements[stage].every((requirement) => requirement.state === 'complete')`
unfoldable pub is_done : KycFacts → KycStage → Bool
is_done facts stage = every is_complete (stage_requirements facts stage)

-- The loop, which breaks at the first stage that is not done.
unfoldable pub level_from : KycFacts → ℕ → List KycStage → ℕ
level_from facts level [] = level
level_from facts level (stage ∷ stages) =
    let rest = level_from facts (number stage) stages in if is_done facts stage then rest else level

abbrev pub all_stages : List KycStage
all_stages = stage_1 ∷ stage_2 ∷ stage_3 ∷ []

unfoldable pub completed_level : KycFacts → ℕ
completed_level facts = if facts.restricted then 0 else level_from facts 0 all_stages

-- The stage after a level, if there is one.
abbrev next_stage : ℕ → Option KycStage
next_stage zero = some stage_1
next_stage (suc zero) = some stage_2
next_stage (suc (suc zero)) = some stage_3
next_stage (suc (suc (suc n))) = none

unfoldable pub current_stage : KycFacts → Option KycStage
current_stage facts = next_stage (completed_level facts)

-- A stage that is not complete nor locked.
unfoldable pub open_status : List StageRequirement → StageStatus
open_status items =
    if some_of is_pending items && every (λ i. is_complete i || is_pending i) items
    then under_review
    else in_progress

unfoldable pub stage_status : KycFacts → KycStage → StageStatus
stage_status facts stage =
    let level = completed_level facts in
    if leb (number stage) level
    then StageStatus.complete
    else if ltb (level + 1) (number stage) || facts.restricted
    then locked
    else open_status (stage_requirements facts stage)

unfoldable pub describe_stages : KycFacts → List StageView
describe_stages facts =
    map
      (λ stage. record {
        stage = stage;
        title = stage_title stage;
        status = stage_status facts stage;
        requirements = stage_requirements facts stage;
        unlocks = stage_unlocks stage;
      })
      all_stages

pub data KycAction : Type 0 where
  ajo_join ajo_contribute akawo_pool_join akawo_goal_create food_subscribe payment : KycAction
  withdrawal wallet_send : KycAction
  ajo_create ajo_administer akawo_pool_create akawo_pool_administer : KycAction
  food_programme_create food_coordinator_apply : KycAction

abbrev pub action_stage : KycAction → KycStage
action_stage ajo_join = stage_1
action_stage ajo_contribute = stage_1
action_stage akawo_pool_join = stage_1
action_stage akawo_goal_create = stage_1
action_stage food_subscribe = stage_1
action_stage payment = stage_1
action_stage withdrawal = stage_2
action_stage wallet_send = stage_2
action_stage ajo_create = stage_3
action_stage ajo_administer = stage_3
action_stage akawo_pool_create = stage_3
action_stage akawo_pool_administer = stage_3
action_stage food_programme_create = stage_3
action_stage food_coordinator_apply = stage_3

abbrev pub action_phrase : KycAction → Text
action_phrase ajo_join = codes "join an Ajo group"
action_phrase ajo_contribute = codes "pay contributions"
action_phrase akawo_pool_join = codes "join an Akawo pool"
action_phrase akawo_goal_create = codes "start an Akawo savings goal"
action_phrase food_subscribe = codes "join a food programme"
action_phrase payment = codes "make payments"
action_phrase withdrawal = codes "withdraw"
action_phrase wallet_send = codes "send money"
action_phrase ajo_create = codes "create an Ajo group"
action_phrase ajo_administer = codes "manage an Ajo group"
action_phrase akawo_pool_create = codes "create an Akawo pool"
action_phrase akawo_pool_administer = codes "manage an Akawo pool"
action_phrase food_programme_create = codes "create a food programme"
action_phrase food_coordinator_apply = codes "apply as a food coordinator"

unfoldable pub satisfies_stage : KycFacts → KycStage → Bool
satisfies_stage facts required = leb (number required) (completed_level facts)

unfoldable pub refusal_message : KycAction → KycFacts → Text
refusal_message action facts =
    if facts.restricted
    then codes "Your verification was not approved. Contact support to continue."
    else codes "Complete stage "
      ++ ((48 + number (action_stage action)) ∷ codes " (")
      ++ stage_title (action_stage action)
      ++ codes ") verification to "
      ++ action_phrase action
      ++ codes "."

pub data Tier : Type 0 where
  tier_1 tier_2 tier_3 : Tier

unfoldable pub tier_for_level : ℕ → Tier
tier_for_level level = if level == 3 then tier_3 else if level == 2 then tier_2 else tier_1
