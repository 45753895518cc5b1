-- ===== src/Fees/Tiers.antt =====
-- A tier set that passes the check partitions the amounts from zero up.
use ajocloud_backend.Prelude.{
  ℕ, suc, ◌+◌, ◌≡◌, refl, ◌&&◌, ◌∙◌, ap, true, not, Option, none, some, List, [], ◌∷◌, ◌++◌, arith,
  if◌then◌else◌, Bool-cases, inl, inr, find?,
}
use ajocloud_backend.Prelude.Int.{ℤ, pos, ◌≤ℤ◌, leb_ℤ, ltb_ℤ, eqb_ℤ, eqb_ℤ→eq, not_ltb_ℤ→le}
use ajocloud_backend.Prelude.Results.{
  ◌>>◌, ok, >>=-eq-ok, throw_if->>-eq-ok, throw_if-eq-ok, not-eq-false,
}
use ajocloud_backend.Fees.{
  FeeTier, covers, tier_for, insert_tier, sort_onto, ordered_tiers, check_last, check_next,
  check_bands, check_start, is_empty, assert_tiers_partition_range,
}

-- How many tiers cover an amount.
abbrev pub covering : ℤ → List FeeTier → ℕ
covering base [] = 0
covering base (t ∷ tiers) = if covers base t then suc (covering base tiers) else covering base tiers

covering-insert_tier :
    (base : ℤ) (t : FeeTier) (ordered : List FeeTier)
    → covering base (insert_tier t ordered) ≡ covering base (t ∷ ordered)
unfolding insert_tier
covering-insert_tier base t [] = refl
covering-insert_tier base t (u ∷ ordered) = ground (arith, covering-insert_tier base t ordered)

covering-sort_onto :
    (base : ℤ) (ordered tiers : List FeeTier)
    → covering base (sort_onto ordered tiers) ≡ covering base ordered + covering base tiers
unfolding sort_onto
covering-sort_onto base ordered [] = omega arith
covering-sort_onto base ordered (t ∷ tiers) =
    covering-sort_onto base (insert_tier t ordered) tiers
    ∙ rw (covering-insert_tier base t ordered) (ground arith)

-- Each tier starts no later than the next.
abbrev IsOrdered : List FeeTier → Type 0
IsOrdered [] = Unit
IsOrdered (t ∷ []) = Unit
IsOrdered (t ∷ u ∷ ordered) = (t.from_minor ≤ℤ u.from_minor) × IsOrdered (u ∷ ordered)

insert_tier-IsOrdered :
    (t : FeeTier) (ordered : List FeeTier) → IsOrdered ordered → IsOrdered (insert_tier t ordered)
unfolding insert_tier
insert_tier-IsOrdered t [] h = tt
insert_tier-IsOrdered t (u ∷ []) h = ground arith
insert_tier-IsOrdered t (u ∷ v ∷ ordered) h =
    ground (arith, insert_tier-IsOrdered t (v ∷ ordered) h.1)

sort_onto-IsOrdered :
    (ordered tiers : List FeeTier) → IsOrdered ordered → IsOrdered (sort_onto ordered tiers)
unfolding sort_onto
sort_onto-IsOrdered ordered [] h = h
sort_onto-IsOrdered ordered (t ∷ tiers) h =
    sort_onto-IsOrdered (insert_tier t ordered) tiers (insert_tier-IsOrdered t ordered h)

check_last-eq-ok : (end : Option ℤ) → check_last end ≡ ok tt → end ≡ none
unfolding check_last
check_last-eq-ok none h = refl
check_last-eq-ok (some end) h = cc

check_next-eq-ok :
    (end : Option ℤ) (amount next_from : ℤ)
    → check_next end amount next_from ≡ ok tt
    → (end ≡ some next_from) × (pos 0 ≤ℤ amount)
unfolding check_next
check_next-eq-ok none amount next_from h = cc
check_next-eq-ok (some end) amount next_from h =
    let (meets, rest) = throw_if->>-eq-ok (not (eqb_ℤ end next_from)) _ _ h in
    let fine = throw_if-eq-ok (ltb_ℤ amount (pos 0)) _ rest in
    (ap some (eqb_ℤ→eq end next_from (not-eq-false _ meets)), not_ltb_ℤ→le amount (pos 0) fine)

one_band :
    (base from next_from : ℤ) (n : ℕ)
    → from ≤ℤ next_from
    → n ≡ (if leb_ℤ next_from base then 1 else 0)
    → (if leb_ℤ from base && ltb_ℤ base next_from then suc n else n)
      ≡ (if leb_ℤ from base then 1 else 0)
one_band base from next_from n o h = ground arith

covering-check_bands :
    (base : ℤ) (t : FeeTier) (ordered : List FeeTier)
    → IsOrdered (t ∷ ordered)
    → check_bands (t ∷ ordered) ≡ ok tt
    → covering base (t ∷ ordered) ≡ (if leb_ℤ t.from_minor base then 1 else 0)
unfolding check_bands
covering-check_bands base t [] o h = rw (check_last-eq-ok t.to_minor h) (ground arith)
covering-check_bands base t (u ∷ ordered) o h =
    let (v, band, rest) = >>=-eq-ok (check_next t.to_minor t.amount_minor u.from_minor) _ h in
    let (meets, positive) = check_next-eq-ok t.to_minor t.amount_minor u.from_minor band in
    rw meets (
      one_band base t.from_minor u.from_minor (covering base (u ∷ ordered)) o.0
        (covering-check_bands base u ordered o.1 rest))

covering-ordered :
    (base : ℤ) (ordered : List FeeTier)
    → IsOrdered ordered
    → check_start ordered ≡ ok tt
    → check_bands ordered ≡ ok tt
    → pos 0 ≤ℤ base
    → covering base ordered ≡ 1
covering-ordered base [] o s b h = cc
covering-ordered base (t ∷ ordered) o s b h =
    let at_zero =
      eqb_ℤ→eq t.from_minor (pos 0)
        (not-eq-false _ (throw_if-eq-ok (not (eqb_ℤ t.from_minor (pos 0))) _ s)) in
    covering-check_bands base t ordered o b ∙ rw at_zero (ground arith)

find?-covering :
    (base : ℤ) (tiers : List FeeTier)
    → covering base tiers ≡ 1
    → (t : FeeTier) × (find? (covers base) tiers ≡ some t) × (covers base t ≡ true)
find?-covering base [] h = absurd (omega arith)
find?-covering base (t ∷ tiers) h = elim (Bool-cases (covers base t)) [
  | inl hit ↦ (t, rw hit, hit)
  | inr miss ↦
      let (u, found, hit) = find?-covering base tiers (rw miss at h) in (u, rw miss found, hit)
]

-- Of a tier set that passes the check, exactly one tier covers any amount from zero up, in whatever
-- order the tiers are given, and `tierFor` returns it.
pub tiers_partition :
    (tiers : List FeeTier) (base : ℤ)
    → assert_tiers_partition_range tiers ≡ ok tt
    → pos 0 ≤ℤ base
    → (covering base tiers ≡ 1)
      × ((t : FeeTier) × (tier_for tiers base ≡ some t) × (covers base t ≡ true))
unfolding assert_tiers_partition_range tier_for ordered_tiers
tiers_partition tiers base h positive =
    let rest = (throw_if->>-eq-ok (is_empty tiers) _ _ h).1 in
    let (u, started, banded) = >>=-eq-ok (check_start (sort_onto [] tiers)) _ rest in
    let once : covering base tiers ≡ 1 = omega (
      arith,
      covering-sort_onto base [] tiers,
      covering-ordered base (sort_onto [] tiers) (sort_onto-IsOrdered [] tiers tt) started banded
          positive,
    ) in
    (once, find?-covering base tiers once)

-- The loop leaves the last tier before it tests for a negative amount: whatever bands stand before
-- it, the check of the ordered bands gives the same answer for every amount of the last tier.
pub check_bands-last_amount :
    (ordered : List FeeTier) (last : FeeTier) (amount : ℤ)
    → check_bands (ordered ++ record last { amount_minor = amount } ∷ [])
      ≡ check_bands (ordered ++ last ∷ [])
unfolding check_bands
check_bands-last_amount [] last amount = refl
check_bands-last_amount (t ∷ []) last amount = refl
check_bands-last_amount (t ∷ next ∷ ordered) last amount =
    ap (λ rest. check_next t.to_minor t.amount_minor next.from_minor >> rest)
      (check_bands-last_amount (next ∷ ordered) last amount)
