-- ===== src/Fines/Payment.antt =====
-- What payments and waivers do to a fine and to the patron's total.
use elidune_server.Prelude.{
  ℕ, ◌≤◌, ◌≡◌, ◌≢◌, ◌↔◌, refl, ap, inl, inr, String, true, false, Option, none, some, List, [], ◌∷◌,
  arith, Bool-cases, ◌∙◌, if◌then◌else◌,
}
use elidune_server.Prelude.Int.{ℤ, pos, ◌+ℤ◌, ◌-ℤ◌, ◌≤ℤ◌, ◌<ℤ◌, leb_ℤ, int_laws, pos_part, neg_part}
use elidune_server.Prelude.Table.{select_first, count_where, count_where_eq_zero, update_where}
use elidune_server.Error.{ok, err, literal, validation, not_found, fine_not_found}
use elidune_server.Rights.{DateTime}
use elidune_server.Fines.{
  FineStatus, pending, partial, paid, waived, fine_status_as_str, fine_status_from_string, Fine,
  fine_has_id, paid_by, waived_by, pay, waive, owed, is_unpaid, total_unpaid,
}

pub fine_status_round_trip : (s : FineStatus) → fine_status_from_string (fine_status_as_str s) ≡ s
unfolding fine_status_as_str fine_status_from_string
fine_status_round_trip pending = refl
fine_status_round_trip partial = refl
fine_status_round_trip paid = refl
fine_status_round_trip waived = refl

unmatched :
    (id : ℕ) (g : Fine → Fine) (fs : List Fine)
    → count_where (fine_has_id id) fs ≡ 0
    → update_where (fine_has_id id) g fs ≡ fs
unmatched id g [] h = refl
unmatched id g (f ∷ fs) h = elim (Bool-cases (fine_has_id id f)) [
  | inl here ↦ absurd (ground arith)
  | inr other ↦ rw (other, unmatched id g fs (ground arith)) refl
]

exchange : (a b t : ℤ) → a +ℤ t +ℤ b ≡ b +ℤ t +ℤ a
exchange a b t = omega int_laws

keep : (k a b c d : ℤ) → a +ℤ b ≡ c +ℤ d → k +ℤ a +ℤ b ≡ k +ℤ c +ℤ d
keep k a b c d e = omega (int_laws, ap pos_part e, ap neg_part e)

-- The new value, from the two sides of a change.
solve : (after before was is : ℤ) → after +ℤ was ≡ before +ℤ is → after ≡ before -ℤ (was -ℤ is)
solve after before was is e = omega (int_laws, ap pos_part e, ap neg_part e)

-- A change of one row changes the total by what it changes of that row.
total_update :
    (user id : ℕ) (g : Fine → Fine) (fs : List Fine) (f : Fine)
    → count_where (fine_has_id id) fs ≤ 1
    → select_first (fine_has_id id) fs ≡ some f
    → total_unpaid user (update_where (fine_has_id id) g fs) +ℤ owed user f
      ≡ total_unpaid user fs +ℤ owed user (g f)
unfolding total_unpaid
total_update user id g [] f u e = absurd (ground arith)
total_update user id g (k ∷ fs) f u e = elim (Bool-cases (fine_has_id id k)) [
  | inl here ↦
      let same : k ≡ f = ground arith in
      rw (here, unmatched id g fs (ground (arith, here)), same)
        (exchange (owed user (g f)) (owed user f) (total_unpaid user fs))
  | inr other ↦
      let rest = total_update user id g fs f (ground arith) (ground arith) in
      rw other (keep (owed user k) _ _ _ _ rest)
]

owed_other : (user : ℕ) (k : Fine) → k.user_id ≢ user → owed user k ≡ pos 0
owed_other user k n = ground arith

owed_open :
    (user : ℕ) (k : Fine)
    → k.user_id ≡ user
    → is_unpaid k.status ≡ true
    → owed user k ≡ k.amount -ℤ k.paid_amount
owed_open user k e o = ground arith

owed_closed : (user : ℕ) (k : Fine) → is_unpaid k.status ≡ false → owed user k ≡ pos 0
owed_closed user k c = ground arith

partly : (a p : ℤ) → p <ℤ a → is_unpaid (if leb_ℤ a p then paid else partial) ≡ true
partly a p h = ground arith

wholly : (a p : ℤ) → a ≤ℤ p → is_unpaid (if leb_ℤ a p then paid else partial) ≡ false
wholly a p h = ground arith

nothing_due : (t x y : ℤ) → x ≡ pos 0 → y ≡ pos 0 → t -ℤ (x -ℤ y) ≡ t
nothing_due t x y ex ey = rw (ex, ey) (omega int_laws)

none_due : (t x y z : ℤ) → x ≡ z → y ≡ pos 0 → t -ℤ (x -ℤ y) ≡ t -ℤ z
none_due t x y z ex ey = rw (ex, ey) (omega int_laws)

rest_due : (t x y a p q : ℤ) → x ≡ a -ℤ p → y ≡ a -ℤ (p +ℤ q) → t -ℤ (x -ℤ y) ≡ t -ℤ q
rest_due t x y a p q ex ey = rw (ex, ey) (omega int_laws)

too_small : (a : ℤ) → a ≤ℤ pos 0 → leb_ℤ a (pos 0) ≡ true
too_small a h = ground arith

large_enough : (a : ℤ) → pos 0 <ℤ a → leb_ℤ a (pos 0) ≡ false
large_enough a h = ground arith

module _ (now : DateTime) (id : ℕ) (notes : Option String) (fines : List Fine) where
  -- A payment on every branch: an amount that is not positive is refused, an unknown fine is not
  -- found, and any other payment succeeds: it adds to the amount paid, and the fine is paid exactly
  -- if that covers its amount, and partly paid otherwise. Other rows do not change.
  pub pay_lem :
      (amount : ℤ)
      → (amount ≤ℤ pos 0
          → pay now id amount notes fines
            ≡ (err (validation (literal "Payment amount must be positive")), fines))
        × (pos 0 <ℤ amount
            → select_first (fine_has_id id) fines ≡ none
            → pay now id amount notes fines ≡ (err (not_found (fine_not_found id)), fines))
        × (pos 0 <ℤ amount
            → (f : Fine) → select_first (fine_has_id id) fines ≡ some f
            → let g = paid_by now amount notes f in
              (pay now id amount notes fines
                ≡ (ok g, update_where (fine_has_id id) (paid_by now amount notes) fines))
              × (g.paid_amount ≡ f.paid_amount +ℤ amount)
              × ((g.status ≡ paid) ↔ (g.amount ≤ℤ g.paid_amount))
              × ((g.status ≡ partial) ↔ (g.paid_amount <ℤ g.amount)))
  unfolding pay
  pay_lem amount = (
    λ h. rw (too_small amount h) refl,
    λ h e.
        rw (large_enough amount h, e)
          (ap (λ x. (err (not_found (fine_not_found id)), x))
            (unmatched id _ fines (count_where_eq_zero (fine_has_id id) fines e))),
    λ h f e. (rw (large_enough amount h, e) refl, refl, ground arith, ground arith),
  )

  -- With unique ids, a payment on a patron's fine that was open lowers the patron's unpaid total by
  -- the payment, but by no more than what was owed on the fine; other patrons' totals stay.
  pub pay-total :
      (user : ℕ) (amount : ℤ) (f : Fine)
      → count_where (fine_has_id id) fines ≤ 1
      → pos 0 <ℤ amount
      → select_first (fine_has_id id) fines ≡ some f
      → is_unpaid f.status ≡ true
      → let after = total_unpaid user (pay now id amount notes fines).1 in
        let before = total_unpaid user fines in
        (f.user_id ≢ user → after ≡ before)
        × (f.user_id ≡ user
            → (f.paid_amount +ℤ amount <ℤ f.amount → after ≡ before -ℤ amount)
              × (f.amount ≤ℤ f.paid_amount +ℤ amount
                  → after ≡ before -ℤ (f.amount -ℤ f.paid_amount)))
  unfolding pay
  pay-total user amount f u positive found open' =
      let g = paid_by now amount notes f in
      let change : total_unpaid user (pay now id amount notes fines).1
          ≡ total_unpaid user fines -ℤ (owed user f -ℤ owed user g) =
        rw (large_enough amount positive)
          (solve _ _ _ _ (total_update user id (paid_by now amount notes) fines f u found)) in
      (
        λ other.
            change
            ∙ nothing_due (total_unpaid user fines) _ _ (owed_other user f other)
                (owed_other user g other),
        λ own. (
          λ less.
              change
              ∙ rest_due (total_unpaid user fines) _ _ f.amount f.paid_amount amount
                  (owed_open user f own open')
                  (owed_open user g own (partly f.amount (f.paid_amount +ℤ amount) less)),
          λ all.
              change
              ∙ none_due (total_unpaid user fines) _ _ (f.amount -ℤ f.paid_amount)
                  (owed_open user f own open')
                  (owed_closed user g (wholly f.amount (f.paid_amount +ℤ amount) all)),
        ),
      )

  -- With unique ids, the waiver of a fine that exists succeeds and takes what was owed on it off
  -- its patron's total.
  pub waive-total :
      (f : Fine)
      → count_where (fine_has_id id) fines ≤ 1
      → select_first (fine_has_id id) fines ≡ some f
      → ((waive now id notes fines).0 ≡ ok (waived_by now notes f))
        × (total_unpaid f.user_id (waive now id notes fines).1
            ≡ total_unpaid f.user_id fines -ℤ owed f.user_id f)
  unfolding waive
  waive-total f u found = (
    rw found refl,
    solve _ _ _ _ (total_update f.user_id id (waived_by now notes) fines f u found)
        ∙ none_due (total_unpaid f.user_id fines) _ _ (owed f.user_id f) refl
            (owed_closed f.user_id (waived_by now notes f) refl),
  )
