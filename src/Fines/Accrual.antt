-- ===== src/Fines/Accrual.antt =====
-- How much a late return costs.
use elidune_server.Prelude.{
  ℕ, ◌*◌, ◌≤◌, ◌≡◌, refl, inl, inr, String, true, false, Option, none, some, List, [], ◌∷◌, ◌++◌,
  arith, Option-cases,
}
use elidune_server.Prelude.Int.{ℤ, pos, negsuc, ◌*ℤ◌, ◌≤ℤ◌, ◌<ℤ◌, leb_ℤ, -ℤ_parts}
use native.Mathlib.Nat.{mul-le-mul_left}
use elidune_server.Error.{Result, ok, err, literal, internal, business_rule}
use elidune_server.Rights.{DateTime}
use elidune_server.Fines.{
  Fine, FineRule, FineDefaults, rule_for, effective_days, fine_amount, cap, new_fine, accrue,
}

zero_days : (a : ℤ) → a *ℤ pos 0 ≡ pos 0
unfolding ◌*ℤ◌
zero_days a = ground arith

no_days :
    (rule : FineRule) (overdue_days : ℤ)
    → overdue_days ≤ℤ rule.grace_days
    → effective_days rule overdue_days ≡ pos 0
no_days rule overdue_days h = ground (arith, -ℤ_parts overdue_days rule.grace_days)

cap_le : (most : Option ℤ) (a : ℤ) → cap most a ≤ℤ a
cap_le none a = omega arith
cap_le (some m) a = ground arith

-- Within the grace period nothing is owed, whatever the rate and the cap.
within_grace :
    (rule : FineRule) (overdue_days : ℤ)
    → overdue_days ≤ℤ rule.grace_days
    → fine_amount rule overdue_days ≤ℤ pos 0
unfolding fine_amount
within_grace rule overdue_days h =
    rw (no_days rule overdue_days h, zero_days rule.daily_rate) (cap_le rule.max_amount (pos 0))

mul_pos : (n d : ℕ) → pos n *ℤ pos d ≡ pos (n * d)
unfolding ◌*ℤ◌
mul_pos n d = ground arith

cap_mono : (most : Option ℤ) (a b : ℤ) → a ≤ℤ b → cap most a ≤ℤ cap most b
cap_mono none a b h = h
cap_mono (some m) a b h = ground arith

days_mono : (rule : FineRule) (a b : ℤ) → a ≤ℤ b → effective_days rule a ≤ℤ effective_days rule b
days_mono rule a b h = ground (arith, -ℤ_parts a rule.grace_days, -ℤ_parts b rule.grace_days)

cap_most : (m a : ℤ) → cap (some m) a ≤ℤ m
cap_most m a = ground arith

cap_pos : (m a : ℤ) → pos 0 <ℤ m → pos 0 <ℤ a → pos 0 <ℤ cap (some m) a
cap_pos m a hm ha = ground arith

free : (a : ℤ) → a ≤ℤ pos 0 → leb_ℤ a (pos 0) ≡ true
free a h = ground arith

due : (a : ℤ) → pos 0 <ℤ a → leb_ℤ a (pos 0) ≡ false
due a h = ground arith

days_pos : (rule : FineRule) (a : ℤ) → pos 0 ≤ℤ effective_days rule a
days_pos rule a = ground arith

-- The price of more days is not lower.
product_mono : (r a b : ℤ) → pos 0 ≤ℤ r → pos 0 ≤ℤ a → pos 0 ≤ℤ b → a ≤ℤ b → r *ℤ a ≤ℤ r *ℤ b
product_mono (negsuc n) a b hr ha hb h = absurd (omega (arith, hr))
product_mono (pos n) (negsuc a) b hr ha hb h = absurd (omega (arith, ha))
product_mono (pos n) (pos a) (negsuc b) hr ha hb h = absurd (omega (arith, hb))
product_mono (pos n) (pos a) (pos b) hr ha hb h =
    let le : a ≤ b = omega (arith, h) in
    rw (mul_pos n a, mul_pos n b) (omega (arith, mul-le-mul_left n le))

product_pos : (r a : ℤ) → pos 0 <ℤ r → pos 0 <ℤ a → pos 0 <ℤ r *ℤ a
product_pos (negsuc n) a hr ha = absurd (omega (arith, hr))
product_pos (pos n) (negsuc a) hr ha = absurd (omega (arith, ha))
product_pos (pos n) (pos a) hr ha =
    let one : 1 ≤ a = omega (arith, ha) in
    rw (mul_pos n a) (omega (arith, hr, mul-le-mul_left n one))

-- With a rate that is not negative, a longer delay never costs less, and the cost never exceeds
-- the rule's maximum.
pub fine_amount_mono :
    (rule : FineRule) (a b : ℤ)
    → pos 0 ≤ℤ rule.daily_rate
    → a ≤ℤ b
    → (fine_amount rule a ≤ℤ fine_amount rule b)
      × ((most : ℤ) → rule.max_amount ≡ some most → fine_amount rule b ≤ℤ most)
unfolding fine_amount
fine_amount_mono rule a b hr h = (
  cap_mono rule.max_amount (rule.daily_rate *ℤ effective_days rule a)
      (rule.daily_rate *ℤ effective_days rule b)
      (product_mono rule.daily_rate (effective_days rule a) (effective_days rule b) hr
        (days_pos rule a) (days_pos rule b) (days_mono rule a b h)),
  λ most e. rw e (cap_most most (rule.daily_rate *ℤ effective_days rule b)),
)

days_late : (rule : FineRule) (a : ℤ) → rule.grace_days <ℤ a → pos 0 <ℤ effective_days rule a
days_late rule a h = ground (arith, -ℤ_parts a rule.grace_days)

costs :
    (rule : FineRule) (overdue_days : ℤ)
    → pos 0 <ℤ rule.daily_rate
    → ((most : ℤ) → rule.max_amount ≡ some most → pos 0 <ℤ most)
    → rule.grace_days <ℤ overdue_days
    → pos 0 <ℤ fine_amount rule overdue_days
unfolding fine_amount
costs rule overdue_days hr hc h = elim (Option-cases rule.max_amount) [
  | inl none' ↦ rw none' (
      product_pos rule.daily_rate (effective_days rule overdue_days) hr
        (days_late rule overdue_days h))
  | inr (most, e) ↦ rw e (
      cap_pos most (rule.daily_rate *ℤ effective_days rule overdue_days) (hc most e) (
        product_pos rule.daily_rate (effective_days rule overdue_days) hr
          (days_late rule overdue_days h)))
]

module _ (defaults : FineDefaults) (id : ℕ) (now : DateTime) (rules : List FineRule)
    (loan_id user_id : ℕ) (media_type : Option String) (overdue_days : ℤ) (fines : List Fine) where
  abbrev pub accrued : Result Fine × List Fine
  accrued = accrue defaults id now rules loan_id user_id media_type overdue_days fines

  abbrev pub charged : FineRule → Fine
  charged rule = new_fine defaults id now loan_id user_id (fine_amount rule overdue_days) none

  -- Without a rule the call is an error. With one, a delay within the grace period is an error, and
  -- a longer one appends one fine of the rule's amount, which is positive, if the rate is positive
  -- and the maximum, where there is one, is too. An error writes nothing.
  pub accrue_lem :
      (rule_for media_type rules ≡ none
        → accrued ≡ (err (internal (literal "No fine rule configured")), fines))
      × ((rule : FineRule)
          → rule_for media_type rules ≡ some rule
          → (overdue_days ≤ℤ rule.grace_days
              → accrued ≡ (
                err (business_rule (literal "Fine amount is zero — within grace period")),
                fines,
              ))
            × (rule.grace_days <ℤ overdue_days
                → pos 0 <ℤ rule.daily_rate
                → ((most : ℤ) → rule.max_amount ≡ some most → pos 0 <ℤ most)
                → (accrued ≡ (ok (charged rule), fines ++ charged rule ∷ []))
                  × (pos 0 <ℤ (charged rule).amount)))
  unfolding accrue
  accrue_lem = (
    λ e. rw e refl,
    λ rule e. (
      λ early.
          rw (e, free (fine_amount rule overdue_days) (within_grace rule overdue_days early)) refl,
      λ late rate most.
          let charge = costs rule overdue_days rate most late in
          (rw (e, due (fine_amount rule overdue_days) charge) refl, charge),
    ),
  )
