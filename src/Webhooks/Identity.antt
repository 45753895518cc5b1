-- ===== src/Webhooks/Identity.antt =====
-- An event's identity, which deduplication keys on, tells transactions apart.
use ajocloud_backend.Prelude.{ℕ, ◌≡◌, refl, sym, ◌∙◌, ap, some, [], ◌∷◌, ◌++◌, ◌==◌, if◌then◌else◌}
use ajocloud_backend.Prelude.Text.{Text, ++_cancel_left}
use ajocloud_backend.Webhooks.{
  MonnifyEventKind, transaction_completion, refund_completion, disbursement, settlement,
  wallet_activity, low_balance, bills_payment, kind_text, Envelope, event_id_of,
  extract_monnify_event,
}

-- The first letters tell the kinds apart.
abbrev initial : Text → ℕ
initial [] = 0
initial (c ∷ t) = c

abbrev kind_from : ℕ → MonnifyEventKind
kind_from c =
    if c == 84
    then transaction_completion
    else if c == 82
    then refund_completion
    else if c == 68
    then disbursement
    else if c == 83
    then settlement
    else if c == 87
    then wallet_activity
    else if c == 76
    then low_balance
    else bills_payment

kind_from-initial :
    (kind : MonnifyEventKind) (s : Text) → kind_from (initial (kind_text kind ++ 58 ∷ s)) ≡ kind
kind_from-initial transaction_completion s = refl
kind_from-initial refund_completion s = refl
kind_from-initial disbursement s = refl
kind_from-initial settlement s = refl
kind_from-initial wallet_activity s = refl
kind_from-initial low_balance s = refl
kind_from-initial bills_payment s = refl

same_kind :
    (kind other : MonnifyEventKind) (s t : Text)
    → kind_text kind ++ 58 ∷ s ≡ kind_text other ++ 58 ∷ t
    → kind ≡ other
same_kind kind other s t h =
    sym (kind_from-initial kind s) ∙ ap (λ x. kind_from (initial x)) h ∙ kind_from-initial other t

same_reference :
    (kind : MonnifyEventKind) (s t : Text)
    → kind_text kind ++ 58 ∷ s ≡ kind_text kind ++ 58 ∷ t
    → s ≡ t
same_reference kind s t h = let tails = ++_cancel_left (kind_text kind) (58 ∷ s) (58 ∷ t) h in cc

-- Two events that carry a provider's reference have one identity only if they arrived on the same kind
-- of route and carry the same reference, whatever else differs.
pub event_id_tells_apart :
    (payload other : Envelope) (route side : MonnifyEventKind) (hash digest r s : Text)
    → (extract_monnify_event payload route hash).provider_reference ≡ some r
    → (extract_monnify_event other side digest).provider_reference ≡ some s
    → (extract_monnify_event payload route hash).event_id
      ≡ (extract_monnify_event other side digest).event_id
    → (route ≡ side) × (r ≡ s)
unfolding extract_monnify_event event_id_of
event_id_tells_apart payload other route side hash digest r s found_r found_s h =
    let ids : kind_text route ++ 58 ∷ r ≡ kind_text side ++ 58 ∷ s =
      sym (ap (λ o. event_id_of route o hash) found_r)
      ∙ h
      ∙ ap (λ o. event_id_of side o digest) found_s in
    let kinds = same_kind route side r s ids in
    (kinds, same_reference side r s (ap (λ k. kind_text k ++ 58 ∷ r) (sym kinds) ∙ ids))
