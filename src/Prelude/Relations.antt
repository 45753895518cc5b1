-- ===== src/Prelude/Relations.antt =====
-- Reachability by the steps that a Boolean transition table allows.
use ajocloud_backend.Prelude.{◌≡◌, Bool, true, ◌&&◌, not}

module _ {S : Type 0} where
  pub data Reach (allows : S → S → Bool) (s : S) : S → Type 0 where
    here : Reach allows s s
    next : {t u : S} → Reach allows s t → allows t u ≡ true → Reach allows s u

  -- The same table without the steps into the states that `shuns` names.
  abbrev pub avoiding : (S → Bool) → (S → S → Bool) → S → S → Bool
  avoiding shuns allows s t = allows s t && not (shuns t)

  -- What the start has and every step keeps, every reached state has.
  pub Reach-invariant {κ} :
      {allows : S → S → Bool} (P : S → Type κ)
      → ((t u : S) → P t → allows t u ≡ true → P u)
      → {s t : S} → P s
      → Reach allows s t
      → P t
  Reach-invariant P keeps p here = p
  Reach-invariant P keeps p (next r step) = keeps _ _ (Reach-invariant P keeps p r) step
