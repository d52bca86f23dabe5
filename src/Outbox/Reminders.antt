-- ===== src/Outbox/Reminders.antt =====
-- A mail is counted as a reminder once.
use elidune_server.Prelude.{
  ℕ, ◌≡◌, ◌↔◌, refl, inl, inr, Bool, false, List, [], ◌∷◌, arith, map, Bool-cases,
}
use elidune_server.Prelude.Table.{select_where, delete_where}
use elidune_server.Rights.{DateTime}
use elidune_server.Outbox.{Mail, reserved_by, reminder_loan_ids, apply_reminder_delivery}

released_ids :
    (i : ℕ) (xs : List (ℕ × ℕ))
    → map (λ r. r.1) (select_where (reserved_by i) (delete_where (reserved_by i) xs)) ≡ []
released_ids i [] = refl
released_ids i (x ∷ xs) = elim (Bool-cases (reserved_by i x)) [
  | inl here ↦ rw here (released_ids i xs)
  | inr other ↦ rw (other, other) (released_ids i xs)
]

module _ (now later : DateTime) (i : ℕ) (m : Mail) where
  abbrev once : Bool × Mail
  once = apply_reminder_delivery now i m

  -- The delivery of a row confirms a reminder if and only if the row reserves a loan, and writes
  -- nothing otherwise; a second delivery of the same row confirms none and writes nothing, so no
  -- loan is counted as reminded twice for one mail.
  pub delivered_once :
      ((once.0 ≡ false) ↔ (reminder_loan_ids i m ≡ []))
      × (once.0 ≡ false → once.1 ≡ m)
      × (apply_reminder_delivery later i once.1 ≡ (false, once.1))
  unfolding apply_reminder_delivery
  delivered_once = go (reminder_loan_ids i m) refl
    where
      go :
          (ids : List ℕ)
          → reminder_loan_ids i m ≡ ids
          → ((once.0 ≡ false) ↔ (reminder_loan_ids i m ≡ []))
            × (once.0 ≡ false → once.1 ≡ m)
            × (apply_reminder_delivery later i once.1 ≡ (false, once.1))
      go [] e = rw e ((λ h. refl, λ h. refl), λ h. refl, rw e refl)
      go (l ∷ ls) e = rw e (
        (λ h. absurd (ground arith), λ h. absurd (ground arith)),
        λ h. absurd (ground arith),
        rw (released_ids i m.reminder_loans) refl,
      )
