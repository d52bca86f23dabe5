-- ===== src/Reminders/Queued.antt =====
-- What is queued stays reserved while more is queued.
use elidune_server.Prelude.{
  ℕ, suc, ◌≡◌, refl, ap, arith, String, Bool, true, false, ◌==◌, ◌&&◌, Option, List, [], ◌∷◌, ◌++◌,
  map,
}
use elidune_server.Prelude.Table.{length, exists_where, All}
use elidune_server.Prelude.Rows.{All-map}
use elidune_server.Error.{Result}
use elidune_server.Rights.{DateTime}
use elidune_server.Outbox.{Mail, is_pending}
use elidune_server.Reminders.{EmailTemplate, is_reserved}
use elidune_server.Reminders.Batch.{outbox_row}

pub exists-left :
    {A : Type 0} (p : A → Bool) (xs ys : List A)
    → exists_where p xs ≡ true
    → exists_where p (xs ++ ys) ≡ true
exists-left p [] ys e = cc
exists-left p (x ∷ xs) ys e = ground (arith, exists-left p xs ys)

pub exists-right :
    {A : Type 0} (p : A → Bool) (xs ys : List A)
    → exists_where p ys ≡ true
    → exists_where p (xs ++ ys) ≡ true
exists-right p [] ys e = e
exists-right p (x ∷ xs) ys e = ground (arith, exists-right p xs ys)

pub and_mono : (a b c : Bool) → (b ≡ true → c ≡ true) → (a && b) ≡ true → (a && c) ≡ true
and_mono true b c h e = h e
and_mono false b c h e = e

pub exists_mono :
    {A : Type 0} (p q : A → Bool) (xs : List A)
    → ((x : A) → p x ≡ true → q x ≡ true)
    → exists_where p xs ≡ true
    → exists_where q xs ≡ true
exists_mono p q [] h e = e
exists_mono p q (x ∷ xs) h e = ground (arith, h x, exists_mono p q xs h)

unfoldable pub Queued : Mail → ℕ → Type 0
Queued m loan = is_reserved loan m ≡ true

pub length-map : {A B : Type 0} (f : A → B) (xs : List A) → length (map f xs) ≡ length xs
length-map f [] = refl
length-map f (x ∷ xs) = ap suc (length-map f xs)

pub eq_self : (n : ℕ) → n == n ≡ true
eq_self n = ground arith

pub entries-Reserved :
    (id : ℕ) (Q : ℕ → Bool) (loans : List ℕ)
    → Q id ≡ true
    → All
        (λ loan.
          exists_where (λ (l : ℕ × ℕ). (l.1 == loan) && Q l.0) (map (λ i. (id, i)) loans) ≡ true)
        loans
entries-Reserved id Q [] q = tt
entries-Reserved id Q (loan ∷ loans) q = (
  rw (eq_self loan, q) refl,
  All-map (λ i. exists_where (λ (l : ℕ × ℕ). (l.1 == i) && Q l.0) (map (λ i. (id, i)) loans) ≡ true)
      _ loans (λ i e. ground (arith, e)) (entries-Reserved id Q loans q),
)

module _ (now : DateTime) (json_body : String → String → String)
    (load_template : Option String → Result EmailTemplate) (format_date : DateTime → String) where
  -- The tables after a reminder is queued.
  abbrev pub queued_mail : ℕ → String → String × String × String → List ℕ → Mail → Mail
  queued_mail id to texts loans m = record m {
    email_outbox =
        m.email_outbox ++ outbox_row now json_body load_template format_date id to texts ∷ [];
    reminder_loans = m.reminder_loans ++ map (λ loan. (id, loan)) loans;
  }

  abbrev pub holds_pending : Mail → ℕ → Bool
  holds_pending m id = exists_where (λ r. (r.id == id) && is_pending r) m.email_outbox

  pub pending_id :
      (id : ℕ) (to : String) (texts : String × String × String) (loans : List ℕ) (m : Mail)
      → holds_pending (queued_mail id to texts loans m) id ≡ true
  pending_id id to texts loans m =
      exists-right (λ r. (r.id == id) && is_pending r) m.email_outbox
        (outbox_row now json_body load_template format_date id to texts ∷ []) (ground arith)

  pub keeps-Queued :
      (id : ℕ) (to : String) (texts : String × String × String) (loans : List ℕ) (m : Mail)
      (loan : ℕ)
      → Queued m loan
      → Queued (queued_mail id to texts loans m) loan
  unfolding Queued
  keeps-Queued id to texts loans m loan h =
      let m1 = queued_mail id to texts loans m in
      exists-left (λ (l : ℕ × ℕ). (l.1 == loan) && holds_pending m1 l.0) m.reminder_loans
        (map (λ i. (id, i)) loans)
        (exists_mono (λ (l : ℕ × ℕ). (l.1 == loan) && holds_pending m l.0)
          (λ (l : ℕ × ℕ). (l.1 == loan) && holds_pending m1 l.0) m.reminder_loans
          (λ l e.
            and_mono (l.1 == loan) (holds_pending m l.0) (holds_pending m1 l.0)
              (exists-left (λ r. (r.id == l.0) && is_pending r) m.email_outbox
                (outbox_row now json_body load_template format_date id to texts ∷ []))
              e)
          h)

  pub new-Queued :
      (id : ℕ) (to : String) (texts : String × String × String) (loans : List ℕ) (m : Mail)
      → All (Queued (queued_mail id to texts loans m)) loans
  unfolding Queued
  new-Queued id to texts loans m =
      All-map
        (λ loan.
          exists_where
            (λ (l : ℕ × ℕ). (l.1 == loan) && holds_pending (queued_mail id to texts loans m) l.0)
            (map (λ i. (id, i)) loans)
          ≡ true)
        _ loans
        (λ loan e.
          exists-right
            (λ (l : ℕ × ℕ). (l.1 == loan) && holds_pending (queued_mail id to texts loans m) l.0)
            m.reminder_loans (map (λ i. (id, i)) loans) e)
        (entries-Reserved id (holds_pending (queued_mail id to texts loans m)) loans
          (pending_id id to texts loans m))
