-- ===== src/Kyc/Stages.antt =====
-- What a level means, and how the stages are shown.
use ajocloud_backend.Prelude.{
  ◌≡◌, refl, ◌↔◌, ◌⊎◌, arith, Bool, true, false, ℕ, ◌+◌, ◌≤◌, ◌<◌, List, leb, if◌then◌else◌,
}
use ajocloud_backend.Kyc.{
  KycFacts, KycStage, stage_1, stage_2, stage_3, number, passed, StageStatus, complete, in_progress,
  under_review, locked, is_done, stage_requirements, level_from, completed_level, stage_status,
  open_status, StageRequirement, satisfies_stage,
}

-- What each stage asks for, in terms of the facts.
abbrev pub HasDone : KycFacts → KycStage → Type 0
HasDone facts stage_1 = (facts.account_active ≡ true) × (facts.basic_info_complete ≡ true)
HasDone facts stage_2 =
    (facts.pin_set ≡ true) × (facts.nin ≡ passed) × (facts.nin_document_uploaded ≡ true)
HasDone facts stage_3 = facts.address ≡ passed

-- A stage with all the stages before it.
abbrev pub HasReached : KycFacts → KycStage → Type 0
HasReached facts stage_1 = HasDone facts stage_1
HasReached facts stage_2 = HasDone facts stage_1 × HasDone facts stage_2
HasReached facts stage_3 = HasDone facts stage_1 × HasDone facts stage_2 × HasDone facts stage_3

is_done_iff :
    (facts : KycFacts) (stage : KycStage) → (is_done facts stage ≡ true) ↔ HasDone facts stage
unfolding is_done stage_requirements
is_done_iff facts stage_1 = ground arith
is_done_iff facts stage_2 = ground arith
is_done_iff facts stage_3 = ground arith

-- The level as a function of the four facts that it depends on.
abbrev level_of : Bool → Bool → Bool → Bool → ℕ
level_of restricted first second third =
    if restricted then 0 else if first then if second then if third then 3 else 2 else 1 else 0

completed_level-eq :
    (facts : KycFacts)
    → completed_level facts
      ≡ level_of facts.restricted
          (is_done facts stage_1)
          (is_done facts stage_2)
          (is_done facts stage_3)
unfolding completed_level level_from
completed_level-eq facts = refl

abbrev AreDone : KycStage → Bool → Bool → Bool → Type 0
AreDone stage_1 first second third = first ≡ true
AreDone stage_2 first second third = (first ≡ true) × (second ≡ true)
AreDone stage_3 first second third = (first ≡ true) × (second ≡ true) × (third ≡ true)

level_of_iff :
    (stage : KycStage) (restricted first second third : Bool)
    → (leb (number stage) (level_of restricted first second third) ≡ true)
      ↔ ((restricted ≡ false) × AreDone stage first second third)
level_of_iff stage_1 restricted first second third = ground arith
level_of_iff stage_2 restricted first second third = ground arith
level_of_iff stage_3 restricted first second third = ground arith

AreDone-iff :
    (facts : KycFacts) (stage : KycStage)
    → AreDone stage (is_done facts stage_1) (is_done facts stage_2) (is_done facts stage_3)
      ↔ HasReached facts stage
AreDone-iff facts stage_1 = is_done_iff facts stage_1
AreDone-iff facts stage_2 =
    let one = is_done_iff facts stage_1 in
    let two = is_done_iff facts stage_2 in
    ((λ d. (one.0 d.0, two.0 d.1)), (λ h. (one.1 h.0, two.1 h.1)))
AreDone-iff facts stage_3 =
    let one = is_done_iff facts stage_1 in
    let two = is_done_iff facts stage_2 in
    let three = is_done_iff facts stage_3 in
    ((λ d. (one.0 d.0, two.0 d.1, three.0 d.2)), (λ h. (one.1 h.0, two.1 h.1, three.1 h.2)))

-- A person satisfies a stage exactly when a reviewer has not restricted the profile and everything that
-- this stage and the stages before it ask for is there: an active account with its basic details; a
-- PIN, a NIN that passed and its document; an address that passed.
pub satisfies_stage_iff :
    (facts : KycFacts) (stage : KycStage)
    → (satisfies_stage facts stage ≡ true) ↔ ((facts.restricted ≡ false) × HasReached facts stage)
unfolding satisfies_stage
satisfies_stage_iff facts stage =
    let level =
      level_of_iff stage facts.restricted (is_done facts stage_1) (is_done facts stage_2)
        (is_done facts stage_3) in
    let done = AreDone-iff facts stage in
    rw (completed_level-eq facts)
      ((λ h. ((level.0 h).0, done.0 (level.0 h).1)), (λ h. level.1 (h.0, done.1 h.1)))

open_status-cases :
    (items : List StageRequirement)
    → (open_status items ≡ in_progress) ⊎ (open_status items ≡ under_review)
unfolding open_status
open_status-cases items = ground arith

-- How a stage stands to the level: behind it, the next one, or further on.
abbrev pub Stands : Bool → ℕ → KycStage → StageStatus → Type 0
Stands restricted level stage status =
    ((status ≡ complete) × (number stage ≤ level))
    ⊎ ((status ≡ locked) × ((level + 1 < number stage) ⊎ (restricted ≡ true)))
    ⊎ (((status ≡ in_progress) ⊎ (status ≡ under_review))
        × (number stage ≡ level + 1)
        × (restricted ≡ false))

-- Every stage that is shown as complete lies within the level; one that is locked lies beyond the next
-- stage or belongs to a restricted profile; one that is in progress or under review is the stage after
-- the level of an unrestricted profile.
pub stage_status-Stands :
    (facts : KycFacts) (stage : KycStage)
    → Stands facts.restricted (completed_level facts) stage (stage_status facts stage)
unfolding stage_status
stage_status-Stands facts stage =
    let either = open_status-cases (stage_requirements facts stage) in ground arith
