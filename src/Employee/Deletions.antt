-- ===== src/Employee/Deletions.antt =====
-- `delete_employee_permanently`
use pumo_bio_metric.Prelude.{
  ℕ, ◌≡◌, refl, sym, ◌∙◌, ap, ◌++◌, map, Bool, true, false, not, List, [], ◌∷◌, ◌==◌, arith,
  if◌then◌else◌, Option, none, some, ok, find?, filter_by, find?-filter_by-none,
}
use pumo_bio_metric.Text.{Text, same, strip}
use pumo_bio_metric.Dict.{Dict}
use pumo_bio_metric.Device.{DeviceInfo}
use pumo_bio_metric.Employee.{Employee, DeviceResult, Readers, matches, find_employee}
use pumo_bio_metric.Employee.Service.{World}
use pumo_bio_metric.Employee.Offboard.{
  all_targets, fire_targets, single_device, fire_found, fire_employee, fire_all, results_of,
  delete_found, delete_employee_permanently,
}
use pumo_bio_metric.Employee.Directory.{employee_at}
use pumo_bio_metric.Employee.Recording.{recording, noted-delete_on_each}
use pumo_bio_metric.Employee.Removal.{asked, asked-delete_on_each}

find?-filter_by_kept :
    (p q : Employee → Bool) (xs : List Employee) (a : Employee)
    → find? p xs ≡ some a
    → q a ≡ true
    → find? p (filter_by q xs) ≡ some a
unfolding find? filter_by
find?-filter_by_kept p q [] a h k = ground (arith, h)
find?-filter_by_kept p q (x ∷ xs) a h k = ground (arith, find?-filter_by_kept p q xs a, h, k)

abbrev survivors : Text → List Employee → List Employee
survivors employee_id = filter_by (λ e. not (matches (strip employee_id) e))

module _ (R : Readers) (registry : Dict DeviceInfo) (employee_id today : Text) (w w' : World R)
    (emp : Employee) (results : List DeviceResult) where
  fired_asked :
      (o : Option Employee)
      → o ≡ some emp
      → asked (results_of (fire_found R registry (fire_all employee_id) today o w).0)
        ≡ all_targets registry emp
  unfolding fire_found fire_targets single_device
  fired_asked o e = rw e (asked-delete_on_each R registry _ (all_targets registry emp) w.readers)

  delete_found-directory :
      (wipe : Bool)
      → delete_found R registry employee_id wipe today (some emp) w ≡ (ok results, w')
      → w'.directory ≡ survivors employee_id w.directory
  unfolding delete_found
  delete_found-directory true h = ground (arith, h)
  delete_found-directory false h = ground (arith, h)

  delete_found-asked :
      (wipe : Bool)
      → find_employee employee_id w.directory ≡ some emp
      → delete_found R registry employee_id wipe today (some emp) w ≡ (ok results, w')
      → asked results ≡ (if wipe then all_targets registry emp else [])
  unfolding delete_found fire_employee
  delete_found-asked true found h =
      let e : results
          ≡ results_of
              (fire_found R registry (fire_all employee_id) today
                (find_employee employee_id w.directory) w).0 =
        ground (arith, h) in
      ap asked e ∙ fired_asked (find_employee employee_id w.directory) found
  delete_found-asked false found h = let e : results ≡ [] = ground (arith, h) in ap asked e

module _ (R : Readers) (registry : Dict DeviceInfo) (employee_id today : Text)
    (w w' : World (recording R)) (emp : Employee) (results : List DeviceResult) where
  noted_fired :
      (o : Option Employee)
      → o ≡ some emp
      → (fire_found (recording R) registry (fire_all employee_id) today o w).1.readers.1
        ≡ w.readers.1 ++ map (λ t. (t, false)) (all_targets registry emp)
  unfolding fire_found fire_targets single_device same
  noted_fired o e =
      rw e
        (noted-delete_on_each R registry false (all_targets registry emp) w.readers.0 w.readers.1)

  delete_found-noted :
      (wipe : Bool)
      → find_employee employee_id w.directory ≡ some emp
      → delete_found (recording R) registry employee_id wipe today (some emp) w ≡ (ok results, w')
      → (w'.readers.1 ≡ (
          if wipe
          then w.readers.1 ++ map (λ t. (t, false)) (all_targets registry emp)
          else w.readers.1))
        × ((if wipe then w.readers.0 else w'.readers.0) ≡ w.readers.0)
  unfolding delete_found fire_employee
  delete_found-noted true found h =
      let e : w'.readers
          ≡ (fire_found (recording R) registry (fire_all employee_id) today
              (find_employee employee_id w.directory) w).1.readers =
        sym (ap (λ (_, v). v.readers) h) in
      (ap (λ s. s.1) e ∙ noted_fired (find_employee employee_id w.directory) found, refl)
  delete_found-noted false found h =
      let e : w'.readers ≡ w.readers = sym (ap (λ (_, v). v.readers) h) in
      (ap (λ s. s.1) e, ap (λ s. s.0) e)

-- On readers that note the deletions they are asked for: a permanent deletion of an employee who
-- exists leaves nobody in the directory whom the identifier matches by id or by code, and keeps
-- everybody found under an id whom it does not match. With the wipe every reader of the employee
-- that the search finds first is asked, once and in order, to delete the employee's PIN there, and
-- there is a result for each; without it no reader is asked, and all are as they were.
pub delete_employee_permanently-ok :
    (R : Readers) (registry : Dict DeviceInfo) (employee_id today : Text) (wipe : Bool)
    (w w' : World (recording R)) (emp other : Employee) (results : List DeviceResult) (k : ℕ)
    → find_employee employee_id w.directory ≡ some emp
    → delete_employee_permanently (recording R) registry employee_id wipe today w ≡ (ok results, w')
    → employee_at k w.directory ≡ some other
    → matches (strip employee_id) other ≡ false
    → (find_employee employee_id w'.directory ≡ none)
      × (employee_at k w'.directory ≡ some other)
      × (w'.readers.1 ≡ (
          if wipe
          then w.readers.1 ++ map (λ t. (t, false)) (all_targets registry emp)
          else w.readers.1))
      × ((if wipe then w.readers.0 else w'.readers.0) ≡ w.readers.0)
      × (asked results ≡ (if wipe then all_targets registry emp else []))
unfolding delete_employee_permanently
delete_employee_permanently-ok R registry employee_id today wipe w w' emp other results k found h
      there apart =
    let h' = rw found at h in
    let d =
      delete_found-directory (recording R) registry employee_id today w w' emp results wipe h' in
    let (noted, kept) =
      delete_found-noted R registry employee_id today w w' emp results wipe found h' in
    (
      rw d (
          unfold find_employee in
          find?-filter_by-none (matches (strip employee_id))
            (λ e. not (matches (strip employee_id) e)) w.directory (λ e m. ground (arith, m))),
      rw d (
          find?-filter_by_kept (λ (e : Employee). e.id == k)
            (λ e. not (matches (strip employee_id) e)) w.directory other there
            (ground (arith, apart))),
      noted,
      kept,
      delete_found-asked (recording R) registry employee_id today w w' emp results wipe found h',
    )
