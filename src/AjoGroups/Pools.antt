-- ===== src/AjoGroups/Pools.antt =====
-- A group's pool account is never a member's account (`poolAccountWithin`).
use ajocloud_backend.Prelude.{
  ◌≡◌, ◌≢◌, refl, sym, ◌∙◌, ap, Bool, true, Option, none, some, List, ◌∷◌, not, All, find?,
  find?-All, find?-test, subst,
}
use ajocloud_backend.Prelude.Text.{Text, text_eq, text_eq_refl}
use ajocloud_backend.Prelude.Results.{
  Tx, ok, or_throw-eq-ok, throw_if->>-eq-ok, state_of_ok, value_of_ok,
}
use ajocloud_backend.Ledger.Accounts.{
  AccountRow, AccountPurpose, wallet_account, is_wallet_account, is_wallet_account-parts,
  IsPrimaryKey,
}
use ajocloud_backend.AjoGroups.{
  Db, find_pool, pool_account_code, pool_row, existing_or_created, pool_account_within,
  unless_found,
}

-- The pool account has been found by the group's code or added under it, and no wallet's account shares its identifier.
pub record PoolReady (group : Text) (db : Db) (to : AccountRow) (after : Db) : Type 1 where
  pub coded : text_eq to.code (pool_account_code group) ≡ true
  pub accounts : List AccountRow
  pub same : after ≡ record db { accounts = accounts }
  pub free : to.wallet_id ≡ none
  pub listed : (P : AccountRow → Type 0) → All P accounts → P to
  pub apart :
      IsPrimaryKey accounts
      → (wallet currency : Text) (purpose : AccountPurpose) (from : AccountRow)
      → wallet_account wallet currency purpose db.accounts ≡ ok from
      → from.id ≢ to.id

wallet_account-owned :
    (wallet currency : Text) (purpose : AccountPurpose) (accounts : List AccountRow)
    {from : AccountRow}
    → wallet_account wallet currency purpose accounts ≡ ok from
    → (find? (is_wallet_account wallet currency purpose) accounts ≡ some from)
      × (from.wallet_id ≡ some wallet)
unfolding wallet_account
wallet_account-owned wallet currency purpose accounts {from} h =
    let found = or_throw-eq-ok _ _ h in
    (
      found,
      (is_wallet_account-parts wallet currency purpose from
          (find?-test (is_wallet_account wallet currency purpose) accounts found)).0,
    )

no_wallet :
    (from to : AccountRow) (wallet : Text)
    → from ≡ to
    → from.wallet_id ≡ some wallet
    → to.wallet_id ≡ none
    → ⊥
no_wallet from to wallet same owned free =
    let both : some wallet ≡ none = sym owned ∙ ap (λ (a : AccountRow). a.wallet_id) same ∙ free in
    cc

abbrev is_pool_of : Text → AccountRow → Bool
is_pool_of group a = text_eq a.code (pool_account_code group)

existing_or_created-ready :
    (group : Text) (created : AccountRow) (db : Db) (found : Option AccountRow) {to : AccountRow}
    {after : Db}
    → created.wallet_id ≡ none
    → created.code ≡ pool_account_code group
    → find? (is_pool_of group) db.accounts ≡ found
    → ((a : AccountRow) → found ≡ some a → a.wallet_id ≡ none)
    → existing_or_created found created db ≡ ok (to, after)
    → PoolReady group db to after
existing_or_created-ready group created db (some existing) {to} {after} free code is_found
      walletless h =
    let (active, h1) = throw_if->>-eq-ok (not existing.is_active) _ _ h in
    let same = value_of_ok h1 in
    let p = is_pool_of group in
    record {
      coded = ap (is_pool_of group) (sym same) ∙ find?-test (is_pool_of group) db.accounts is_found;
      accounts = db.accounts;
      same = sym (state_of_ok h1);
      free = ap (λ (a : AccountRow). a.wallet_id) (sym same) ∙ walletless existing refl;
      listed =
          λ P all. subst (λ (a : AccountRow). P a) same (find?-All P p db.accounts all is_found);
      apart = λ (row_of, keys) wallet currency purpose from mine one_id.
          let (from_found, owned) = wallet_account-owned wallet currency purpose db.accounts mine in
          let is_from = find?-All (λ r. row_of r.id ≡ r) _ db.accounts keys from_found in
          let is_pool = find?-All (λ r. row_of r.id ≡ r) p db.accounts keys is_found in
          let ids : from.id ≡ existing.id = one_id ∙ ap (λ (a : AccountRow). a.id) (sym same) in
          no_wallet from existing wallet (sym is_from ∙ ap row_of ids ∙ is_pool) owned
            (walletless existing refl);
    }
existing_or_created-ready group created db none {to} {after} free code is_found walletless h =
    let same = value_of_ok h in
    record {
      coded =
          ap (is_pool_of group) (sym same)
          ∙ ap (λ c. text_eq c (pool_account_code group)) code
          ∙ text_eq_refl (pool_account_code group);
      accounts = created ∷ db.accounts;
      same = sym (state_of_ok h);
      free = ap (λ (a : AccountRow). a.wallet_id) (sym same) ∙ free;
      listed = λ P all. subst (λ (a : AccountRow). P a) same all.0;
      apart = λ (row_of, keys) wallet currency purpose from mine one_id.
          let (from_found, owned) = wallet_account-owned wallet currency purpose db.accounts mine in
          let is_from = find?-All (λ r. row_of r.id ≡ r) _ db.accounts keys.1 from_found in
          let ids : from.id ≡ created.id = one_id ∙ ap (λ (a : AccountRow). a.id) (sym same) in
          no_wallet from created wallet (sym is_from ∙ ap row_of ids ∙ keys.0) owned free;
    }

pub pool_account_within-ready :
    (id group currency : Text) (db : Db) {to : AccountRow} {after : Db}
    → ((a : AccountRow) → find_pool group db ≡ some a → a.wallet_id ≡ none)
    → pool_account_within id group currency db ≡ ok (to, after)
    → PoolReady group db to after
unfolding pool_account_within find_pool
pool_account_within-ready id group currency db walletless h =
    existing_or_created-ready group (pool_row id group currency) db (find_pool group db) refl refl
      refl walletless h

-- Work that ran because no row was there.
pub unless_found-none :
    {Row : Type 0} (found : Option Row) (work : Tx Db Row) (db : Db) {done : Row × Db}
    → found ≡ none
    → unless_found found work db ≡ ok done
    → work db ≡ ok done
unless_found-none none work db missing h = h
unless_found-none (some row) work db missing h = cc missing

-- The same of an account that is looked up once the pool is there.
pub pool_apart :
    {group : Text} {db : Db} {pool : AccountRow} {after : Db}
    (ready : PoolReady group db pool after)
    → IsPrimaryKey ready.accounts
    → (wallet currency : Text) (purpose : AccountPurpose) (to : AccountRow)
    → wallet_account wallet currency purpose ready.accounts ≡ ok to
    → pool.id ≢ to.id
pool_apart {pool = pool} ready (row_of, keys) wallet currency purpose to mine one_id =
    let (to_found, owned) = wallet_account-owned wallet currency purpose ready.accounts mine in
    let is_to = find?-All (λ r. row_of r.id ≡ r) _ ready.accounts keys to_found in
    let is_pool = ready.listed (λ r. row_of r.id ≡ r) keys in
    no_wallet to pool wallet (sym is_to ∙ ap row_of (sym one_id) ∙ is_pool) owned ready.free
