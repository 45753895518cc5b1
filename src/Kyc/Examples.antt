-- ===== src/Kyc/Examples.antt =====
-- A member with a verified account and identity, whose address a reviewer still has to confirm.
use ajocloud_backend.Prelude.{◌≡◌, ◌↔◌, refl, true, false}
use ajocloud_backend.Prelude.Text.{codes}
use ajocloud_backend.Kyc.{
  KycFacts, CheckState, passed, stage_2, stage_3, StageStatus, ajo_create, completed_level,
  level_from, is_done, stage_requirements, stage_status, open_status, satisfies_stage,
  refusal_message,
}
use ajocloud_backend.Kyc.Stages.{HasReached, Stands, satisfies_stage_iff, stage_status-Stands}

abbrev facts : KycFacts
facts = record {
  account_active = true;
  basic_info_complete = true;
  pin_set = true;
  nin = passed;
  nin_document_uploaded = true;
  address = CheckState.pending;
  restricted = false;
}

level_is_2 : completed_level facts ≡ 2
unfolding completed_level level_from is_done stage_requirements
level_is_2 = refl

address_is_under_review : stage_status facts stage_3 ≡ StageStatus.under_review
unfolding stage_status open_status completed_level level_from is_done stage_requirements
address_is_under_review = refl

creating_is_refused :
    refusal_message ajo_create facts
    ≡ codes "Complete stage 3 (Address) verification to create an Ajo group."
unfolding refusal_message
creating_is_refused = refl

satisfies_stage_iff_example :
    (satisfies_stage facts stage_2 ≡ true) ↔ ((facts.restricted ≡ false) × HasReached facts stage_2)
satisfies_stage_iff_example = satisfies_stage_iff facts stage_2

stage_status-Stands_example :
    Stands facts.restricted (completed_level facts) stage_3 (stage_status facts stage_3)
stage_status-Stands_example = stage_status-Stands facts stage_3
