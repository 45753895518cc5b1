-- ===== src/Wallets/Replay.antt =====
-- Repeated and refused requests to move money.
use ajocloud_backend.Prelude.{ℕ, ◌≡◌, refl, ◌∙◌, ap, inl, inr}
use ajocloud_backend.Prelude.Int.{ℤ}
use ajocloud_backend.Prelude.Text.{Text, codes}
use ajocloud_backend.Prelude.Results.{Result, Failure, ok, err, done, Result-cases}
use ajocloud_backend.Auth.{PinHasher, verify_pin}
use ajocloud_backend.Wallets.{
  Db, TransferRow, WithdrawalRow, SendToWalletDto, WithdrawDto, Fresh, assert_payable_amount,
  authorised, find_transfer, find_withdrawal, send_within, withdraw_within, send, withdraw,
}
use ajocloud_backend.Wallets.Once.{settle_once-stores, settle_once-replay}
use ajocloud_backend.Wallets.Send.{send_within-stores}
use ajocloud_backend.Wallets.Withdraw.{withdraw_within-stores}

failed_first :
    {Row : Type 0} {row : Row} {e : Failure} {s t : Db}
    → ◌≡◌ {A = Result Row × Db} (err e, s) (ok row, t)
    → ⊥
failed_first h = let firsts = ap (λ p. p.0) h in cc

module _ (hasher : PinHasher) {Row : Type 0} (user : Text) (amount : ℤ) (pin : Text) (now : ℕ)
    (work : Db → Result Row × Db) (db : Db) where
  -- A request that succeeded has got past its PIN, and did its work on the table that the PIN left.
  authorised-inv :
      {row : Row} {after : Db}
      → authorised hasher user amount pin now work db ≡ (ok row, after)
      → work (record db { pins = (verify_pin hasher user pin now db.pins).1 }) ≡ (ok row, after)
  unfolding authorised
  authorised-inv {row} {after} h = elim (Result-cases (assert_payable_amount amount)) [
    | inl (u, payable) ↦
        let h1 = rw payable at h in
        elim (Result-cases (verify_pin hasher user pin now db.pins).0) [
          | inl (v, verified) ↦ rw verified at h1
          | inr (e, refused) ↦ let h2 = rw refused at h1 in absurd (failed_first h2)
        ]
    | inr (e, refused) ↦ let h1 = rw refused at h in absurd (failed_first h1)
  ]

  authorised-work :
      assert_payable_amount amount ≡ done
      → (verify_pin hasher user pin now db.pins).0 ≡ done
      → authorised hasher user amount pin now work db
        ≡ work (record db { pins = (verify_pin hasher user pin now db.pins).1 })
  unfolding authorised
  authorised-work payable verified = rw (payable, verified)

-- However a send settled, a later send under its key with an accepted PIN returns the same
-- transfer, and changes nothing but the PIN's counters.
pub send_replay :
    (hasher : PinHasher) (user : Text) (dto again : SendToWalletDto) (key : Text)
    (first later : Fresh) (others others_later : Db → Db) (db : Db) (transfer : TransferRow)
    (after : Db)
    → send hasher user dto key first others db ≡ (ok transfer, after)
    → assert_payable_amount again.amount_minor ≡ done
    → (verify_pin hasher user again.transaction_pin later.now after.pins).0 ≡ done
    → send hasher user again key later others_later after ≡ (
      ok transfer,
      record after { pins = (verify_pin hasher user again.transaction_pin later.now after.pins).1 },
    )
unfolding send find_transfer
send_replay hasher user dto again key first later others others_later db transfer after h payable
      verified =
    let body = send_within user dto key first in
    let settled =
      authorised-inv hasher user dto.amount_minor dto.transaction_pin first.now _ db h in
    let found =
      settle_once-stores user (codes "wallet.transfer.sent") (λ t. t.id) (find_transfer key) others
        body (λ d logs. refl) (send_within-stores user dto key first) _ settled in
    authorised-work hasher user again.amount_minor again.transaction_pin later.now _ after payable
      verified
    ∙ settle_once-replay user (codes "wallet.transfer.sent") (λ t. t.id) (find_transfer key)
        others_later (send_within user again key later) (λ d logs. refl)
        (send_within-stores user again key later) _ found

-- However a withdrawal was requested, a later request under its key with an accepted PIN returns the
-- same withdrawal, and changes nothing but the PIN's counters.
pub withdraw_replay :
    (hasher : PinHasher) (user : Text) (dto again : WithdrawDto) (key : Text) (first later : Fresh)
    (others others_later : Db → Db) (db : Db) (w : WithdrawalRow) (after : Db)
    → withdraw hasher user dto key first others db ≡ (ok w, after)
    → assert_payable_amount again.amount_minor ≡ done
    → (verify_pin hasher user again.transaction_pin later.now after.pins).0 ≡ done
    → withdraw hasher user again key later others_later after ≡ (
      ok w,
      record after { pins = (verify_pin hasher user again.transaction_pin later.now after.pins).1 },
    )
unfolding withdraw find_withdrawal
withdraw_replay hasher user dto again key first later others others_later db w after h payable
      verified =
    let body = withdraw_within user dto key first in
    let settled =
      authorised-inv hasher user dto.amount_minor dto.transaction_pin first.now _ db h in
    let found =
      settle_once-stores user (codes "wallet.withdrawal.requested") (λ w. w.id)
        (find_withdrawal key) others body (λ d logs. refl)
        (withdraw_within-stores user dto key first) _ settled in
    authorised-work hasher user again.amount_minor again.transaction_pin later.now _ after payable
      verified
    ∙ settle_once-replay user (codes "wallet.withdrawal.requested") (λ w. w.id)
        (find_withdrawal key) others_later (withdraw_within user again key later) (λ d logs. refl)
        (withdraw_within-stores user again key later) _ found
