-- ===== src/Employee/Directory.antt =====
-- What assigning to the employee that a service call found does to the directory.
use pumo_bio_metric.Prelude.{
  ℕ, ◌≡◌, ◌≢◌, refl, Bool, true, false, List, [], ◌∷◌, ◌==◌, arith, Option, some, find?,
  update_first, find?-holds,
}
use pumo_bio_metric.Text.{Text, strip}
use pumo_bio_metric.Employee.{Employee, matches, find_employee}
use pumo_bio_metric.Employee.Roaming.{set_employee}

-- The employee with that id.
abbrev pub employee_at : ℕ → List Employee → Option Employee
employee_at k = find? (λ (e : Employee). e.id == k)

find?-set_first :
    (p : Employee → Bool) (b : Employee) (xs : List Employee) (a : Employee)
    → find? p xs ≡ some a
    → p b ≡ true
    → find? p (update_first p (λ _. b) xs) ≡ some b
unfolding find? update_first
find?-set_first p b [] a h k = ground arith
find?-set_first p b (x ∷ xs) a h k = ground (arith, find?-set_first p b xs a)

find?-set_other :
    (p q : Employee → Bool) (b : Employee) (xs : List Employee) (a : Employee)
    → find? p xs ≡ some a
    → q a ≡ false
    → q b ≡ false
    → find? q (update_first p (λ _. b) xs) ≡ find? q xs
unfolding find? update_first
find?-set_other p q b [] a h k l = refl
find?-set_other p q b (x ∷ xs) a h k l = ground (arith, find?-set_other p q b xs a)

-- `b` is `a` as far as searches by id and code go.
pub record SamePerson (a b : Employee) : Type 0 where
  pub id : b.id ≡ a.id
  pub employee_code : b.employee_code ≡ a.employee_code

matches-SamePerson :
    (target : Text) (a b : Employee) → SamePerson a b → matches target b ≡ matches target a
unfolding matches
matches-SamePerson target a b p = rw (p.id, p.employee_code) refl

-- The search finds the new value, and every other employee is as it was.
pub set_employee-found :
    (employee_id : Text) (a b : Employee) (directory : List Employee)
    → SamePerson a b
    → find_employee employee_id directory ≡ some a
    → find_employee employee_id (set_employee employee_id b directory) ≡ some b
unfolding find_employee
set_employee-found employee_id a b directory p h =
    find?-set_first (matches (strip employee_id)) b directory a h (
      rw (matches-SamePerson (strip employee_id) a b p)
        (find?-holds (matches (strip employee_id)) directory a h))

pub set_employee-other :
    (employee_id : Text) (a b : Employee) (directory : List Employee) (k : ℕ)
    → SamePerson a b
    → find_employee employee_id directory ≡ some a
    → k ≢ a.id
    → employee_at k (set_employee employee_id b directory) ≡ employee_at k directory
unfolding find_employee
set_employee-other employee_id a b directory k p h ne =
    find?-set_other (matches (strip employee_id)) (λ (e : Employee). e.id == k) b directory a h
      (ground arith) (rw p.id (ground arith))
