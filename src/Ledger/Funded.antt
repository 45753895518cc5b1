-- ===== src/Ledger/Funded.antt =====
-- A movement that is checked against the balance it leaves: what wallets and group pools do.
use ajocloud_backend.Prelude.{ℕ, ◌≡◌, ◌≢◌, none, false}
use ajocloud_backend.Prelude.Int.{ℤ, pos, ◌-ℤ◌, ◌≤ℤ◌, ltb_ℤ, int_laws, parts_of_eq, not_ltb_ℤ→le}
use ajocloud_backend.Prelude.Text.{Text}
use ajocloud_backend.Prelude.Results.{
  Result, ok, Failure, ◌>>=◌, ◌>>◌, throw_if, >>=-eq-ok, throw_if->>-eq-ok,
}
use ajocloud_backend.Ledger.{
  Ledger, PostingCommand, Receipt, find_by_key, post_within, account_balance_within,
}
use ajocloud_backend.Ledger.TwoLegs.{two_legs, Moved, post_two_legs}

-- The amount moved, and the account that it left is not overdrawn.
pub record Funded (from to : Text) (amount : ℤ) (before after : Ledger) : Type 0 where
  pub moved : Moved from to amount before after
  pub covered : pos 0 ≤ℤ account_balance_within from after

covered_after :
    (balance amount left : ℤ)
    → ltb_ℤ balance amount ≡ false
    → left ≡ balance -ℤ amount
    → pos 0 ≤ℤ left
covered_after balance amount left enough eq =
    let fits = not_ltb_ℤ→le balance amount enough in let parts = parts_of_eq eq in omega int_laws

-- A guarded posting of two legs that went on had the money and moved it.
pub Funded-posting :
    {B : Type 0} (id : Text) (now : ℕ) (command : PostingCommand) (ledger : Ledger) (from to : Text)
    (amount : ℤ) (refusal : Failure) (rest : Receipt × Ledger → Result B) {b : B}
    → command.entries ≡ two_legs from to amount
    → from ≢ to
    → find_by_key command.idempotency_key ledger ≡ none
    → (throw_if (ltb_ℤ (account_balance_within from ledger) amount) refusal
        >> (post_within id now command ledger >>= rest))
      ≡ ok b
    → (done : Receipt × Ledger) × (rest done ≡ ok b) × Funded from to amount ledger done.1
Funded-posting id now command ledger from to amount refusal rest legs apart new h =
    let (enough, h1) =
      throw_if->>-eq-ok (ltb_ℤ (account_balance_within from ledger) amount) _ _ h in
    let ((receipt, after), stored, h2) = >>=-eq-ok (post_within id now command ledger) rest h1 in
    let moved =
      post_two_legs id now command ledger receipt after from to amount legs apart new stored in
    (
      (receipt, after),
      h2,
      record { moved = moved; covered = covered_after _ amount _ enough moved.left },
    )
