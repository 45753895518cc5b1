-- ===== src/Prelude/Results.antt =====
-- Results of fallible code: a value, or the exception that was thrown with its message.
use ajocloud_backend.Prelude.{
  ◌≡◌, refl, ◌⊎◌, inl, inr, Bool, true, false, not, Option, none, some, String,
}

pub data Failure : Type 0 where
  bad_request forbidden not_found conflict unprocessable too_many_requests : String → Failure
  bad_gateway : String → Failure
  -- `new Error(message)`, which the framework answers with status 500.
  plain_error : String → Failure

-- What a call ends with.
pub data Result {ℓ} (V : Type ℓ) : Type ℓ where
  err : Failure → Result V
  ok : V → Result V

-- The value of a method that returns nothing.
abbrev pub done : Result (Unit {0})
done = ok tt

-- `await`: a thrown exception skips the rest of the body.
abbrev pub ◌>>=◌ {ℓ κ} : {V : Type ℓ} {W : Type κ} → Result V → (V → Result W) → Result W
err thrown >>= rest = err thrown
ok v >>= rest = rest v

infixl 5 ◌>>=◌ ◌>>◌
abbrev pub ◌>>◌ {ℓ} : {W : Type ℓ} → Result (Unit {0}) → Result W → Result W
first >> rest = first >>= λ _. rest

-- `if (c) throw e;`
abbrev pub throw_if : Bool → Failure → Result (Unit {0})
throw_if true e = err e
throw_if false e = done

-- A body that came through has a first step that came through.
pub >>=-eq-ok {ℓ κ} :
    {V : Type ℓ} {W : Type κ} (first : Result V) (rest : V → Result W) {w : W}
    → (first >>= rest) ≡ ok w
    → (v : V) × (first ≡ ok v) × (rest v ≡ ok w)
>>=-eq-ok (err thrown) rest came = cc
>>=-eq-ok (ok v) rest came = (v, refl, came)

-- What a step inside a database transaction does: a value and the new state, or an exception.
abbrev pub Tx : Type 0 → Type 0 → Type 0
Tx S A = S → Result (A × S)

abbrev pub settle_tx : {S A : Type 0} → Result (A × S) → S → Result A × S
settle_tx (ok (a, s')) s = (ok a, s')
settle_tx (err e) s = (err e, s)

-- `transactions.serializable`: an exception rolls every write of the body back.
abbrev pub serializable : {S A : Type 0} → Tx S A → S → Result A × S
serializable body s = settle_tx (body s) s

pub Result-cases {ℓ} :
    {A : Type ℓ} (m : Result A) → ((a : A) × (m ≡ ok a)) ⊎ ((e : Failure) × (m ≡ err e))
Result-cases (ok a) = inl (a, refl)
Result-cases (err e) = inr (e, refl)

settle_tx-eq-ok :
    {S A : Type 0} (m : Result (A × S)) (s : S) {a : A} {t : S}
    → settle_tx m s ≡ (ok a, t)
    → m ≡ ok (a, t)
settle_tx-eq-ok (ok (b, u)) s h = cc
settle_tx-eq-ok (err e) s h = cc

-- A transaction that returned has run its body to the end.
pub serializable-eq-ok :
    {S A : Type 0} (body : Tx S A) (s : S) {a : A} {t : S}
    → serializable body s ≡ (ok a, t)
    → body s ≡ ok (a, t)
serializable-eq-ok body s h = settle_tx-eq-ok (body s) s h

-- A guard that let the rest run did not throw.
pub throw_if-eq-ok : (c : Bool) (e : Failure) {u : Unit {0}} → throw_if c e ≡ ok u → c ≡ false
throw_if-eq-ok true e h = cc
throw_if-eq-ok false e h = refl

pub throw_if->>-eq-ok {ℓ} :
    {B : Type ℓ} (c : Bool) (e : Failure) (k : Result B) {b : B}
    → (throw_if c e >> k) ≡ ok b
    → (c ≡ false) × (k ≡ ok b)
throw_if->>-eq-ok true e k h = cc
throw_if->>-eq-ok false e k h = (refl, h)

pub not-eq-false : (b : Bool) → not b ≡ false → b ≡ true
not-eq-false true h = refl
not-eq-false false h = cc

pub state_of_ok :
    {S A : Type 0} {a b : A} {s t : S} → ◌≡◌ {A = Result (A × S)} (ok (a, s)) (ok (b, t)) → s ≡ t
state_of_ok h = cc

pub value_of_ok :
    {S A : Type 0} {a b : A} {s t : S} → ◌≡◌ {A = Result (A × S)} (ok (a, s)) (ok (b, t)) → a ≡ b
value_of_ok h = cc

pub eq_of_ok {ℓ} : {A : Type ℓ} {a b : A} → ok a ≡ ok b → a ≡ b
eq_of_ok h = cc

-- `if (!row) throw e;`
abbrev pub or_throw {ℓ} : {A : Type ℓ} → Option A → Failure → Result A
or_throw none e = err e
or_throw (some a) e = ok a

pub or_throw-eq-ok {ℓ} :
    {A : Type ℓ} (found : Option A) (e : Failure) {a : A} → or_throw found e ≡ ok a → found ≡ some a
or_throw-eq-ok none e h = cc
or_throw-eq-ok (some a) e h = cc

-- The state that a body leaves, and its value, with what to take if it throws: for tests.
abbrev pub state_or : {S A : Type 0} → Result (A × S) → S → S
state_or (ok (a, s)) default = s
state_or (err e) default = default

abbrev pub value_or : {S A : Type 0} → Result (A × S) → A → A
value_or (ok (a, s)) default = a
value_or (err e) default = default

abbrev pub result_or {ℓ} : {A : Type ℓ} → Result A → A → A
result_or (ok a) default = a
result_or (err e) default = default
