-- ===== src/Wallets/Once.antt =====
-- What a request under an idempotency key leaves behind, for `send` and `withdraw` alike.
use ajocloud_backend.Prelude.{◌≡◌, sym, ◌∙◌, ap, ap₂, Option, some, List, inl, inr, Option-cases}
use ajocloud_backend.Prelude.Text.{Text}
use ajocloud_backend.Prelude.Results.{Result, ok, err, Tx, Failure, eq_of_ok, Result-cases}
use ajocloud_backend.Wallets.{Db, AuditRow, with_idempotency_race, recorded, settle_once}

fst_eq : {A B : Type 0} {a c : A} {b d : B} → ◌≡◌ {A = A × B} (a, b) (c, d) → a ≡ c
fst_eq h = ap (λ p. p.0) h

snd_eq : {A B : Type 0} {a c : A} {b d : B} → ◌≡◌ {A = A × B} (a, b) (c, d) → b ≡ d
snd_eq h = ap (λ p. p.1) h

err_ne_ok : {A : Type 0} {e : Failure} {a : A} → err e ≡ ok a → ⊥
err_ne_ok h = cc

recorded-inv :
    {Row : Type 0} (user action : Text) (id_of : Row → Text) (outcome : Result Row) (db : Db)
    {row : Row} {after : Db}
    → recorded user action id_of outcome db ≡ (ok row, after)
    → (outcome ≡ ok row) × ((logs : List AuditRow) × (after ≡ record db { audit_logs = logs }))
recorded-inv user action id_of (err e) db h = absurd (err_ne_ok (fst_eq h))
recorded-inv user action id_of (ok row) db h = (fst_eq h, (_, sym (snd_eq h)))

module _ {Row : Type 0} (user action : Text) (id_of : Row → Text) (read : Db → Option Row)
    (others : Db → Db) (body : Tx Db Row)
    (audit_unread : (db : Db) (logs : List AuditRow)
      → read (record db { audit_logs = logs }) ≡ read db)
    (body_stores : (db : Db) (row : Row) (after : Db)
      → body db ≡ ok (row, after)
      → read after ≡ some row) where
  race-stores :
      (db : Db) {row : Row} {after : Db}
      → with_idempotency_race read others body db ≡ (ok row, after)
      → read after ≡ some row
  unfolding with_idempotency_race
  race-stores db {row} {after} h = elim (Result-cases (body db)) [
    | inl ((got, db'), ran) ↦
        let h' = rw ran at h in
        body_stores db row after (ran ∙ ap₂ (λ r d. ok (r, d)) (eq_of_ok (fst_eq h')) (snd_eq h'))
    | inr (e, threw) ↦ elim (Option-cases (read (others db))) [
      | inl lost ↦ let h' = rw (threw, lost) at h in absurd (err_ne_ok (fst_eq h'))
      | inr (winner, found) ↦
          let h' = rw (threw, found) at h in
          ap read (sym (snd_eq h')) ∙ found ∙ ap some (eq_of_ok (fst_eq h'))
    ]
  ]

  -- A settled request leaves its row under its key, whichever request wrote it.
  pub settle_once-stores :
      (db : Db) {row : Row} {after : Db}
      → settle_once user action id_of read others body db ≡ (ok row, after)
      → read after ≡ some row
  unfolding settle_once
  settle_once-stores db {row} {after} h = elim (Option-cases (read db)) [
    | inl missing ↦
        let ran = with_idempotency_race read others body db in
        let h' = rw missing at h in
        let (succeeded, (logs, same)) = recorded-inv user action id_of ran.0 ran.1 h' in
        ap read same ∙ audit_unread ran.1 logs ∙ race-stores db (ap (λ o. (o, ran.1)) succeeded)
    | inr (existing, found) ↦
        let h' = rw found at h in ap read (sym (snd_eq h')) ∙ found ∙ ap some (eq_of_ok (fst_eq h'))
  ]

  -- A request whose row is there already does nothing.
  pub settle_once-replay :
      (db : Db) {row : Row}
      → read db ≡ some row
      → settle_once user action id_of read others body db ≡ (ok row, db)
  unfolding settle_once
  settle_once-replay db found = rw found
