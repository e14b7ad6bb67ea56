-- ===== src/Router/Reading.antt =====
-- What a body must say for `/run` to call anything, and what `/delete-batch` makes of a text.
use pumo_bio_metric.Prelude.{
  ℕ, ◌≡◌, refl, false, ◌&&◌, ◌||◌, List, [], ◌∷◌, none, Result, ok, err, ◌⊎◌, arith, map, inl, inr,
}
use pumo_bio_metric.Text.{Text, codes, same, is_empty}
use pumo_bio_metric.Text.Numbers.{same_ℤ}
use pumo_bio_metric.Router.Json.{
  Json, Members, text, array, no_elements, format, characters, is_true, iterate, get, get_or,
  first_true,
}
use pumo_bio_metric.Router.Body.{int_field, text_field}
use pumo_bio_metric.Router.Engine.{MigrationCall, DeleteCall}
use pumo_bio_metric.Router.Calls.{read_run, run_ids, read_delete_batch, read_link}

Result-cases : {A B : Type 0} (m : Result A B) → ((b : B) × (m ≡ ok b)) ⊎ ((a : A) × (m ≡ err a))
Result-cases (ok b) = inl (b, refl)
Result-cases (err a) = inr (a, refl)

-- Both readers are named, and not by one name with one port; no PIN is asked for on the target.
abbrev pub IsBetween : MigrationCall → Type 0
IsBetween c =
    (is_empty c.source_id ≡ false)
    × (is_empty c.target_id ≡ false)
    × ((same c.source_id c.target_id && same_ℤ c.source_port c.target_port) ≡ false)
    × (c.target_pin ≡ none)

both_given :
    (s t : Text) → (is_empty s || is_empty t) ≡ false → (is_empty s ≡ false) × (is_empty t ≡ false)
both_given [] t h = absurd (ground (arith, h))
both_given (c ∷ s) t h = (refl, h)

pub read_run-IsBetween :
    (repr : Json → Text) (ms : Members) (c : MigrationCall) → read_run repr ms ≡ ok c → IsBetween c
unfolding read_run
read_run-IsBetween repr ms c h =
    let source_id = text_field repr (codes "sourceSn" ∷ codes "sourceIp" ∷ []) ms in
    let target_id = text_field repr (codes "targetSn" ∷ codes "targetIp" ∷ []) ms in
    ground (
      arith,
      h,
      Result-cases (int_field (codes "sourcePort") 4370 ms),
      Result-cases (int_field (codes "targetPort") 4370 ms),
      Result-cases (int_field (codes "timeout") 8 ms),
      Result-cases (run_ids repr (get_or (array no_elements) ms (codes "userIds"))),
      both_given source_id target_id,
    )

-- A text under `userIds`, which is not empty.
characters-format :
    (repr : Json → Text) (s : Text) → map (format repr) (characters s) ≡ map (λ d. d ∷ []) s
unfolding format
characters-format repr [] = refl
characters-format repr (c ∷ s) = rw (characters-format repr s) refl

first_true-first :
    (default : Json) (ms : Members) (k : Text) (ks : List Text) (d : ℕ) (s : Text)
    → get ms k ≡ text (d ∷ s)
    → first_true default ms (k ∷ ks) ≡ text (d ∷ s)
unfolding first_true is_true
first_true-first default ms k ks d s h = rw h refl

pub read_delete_batch-characters :
    (repr : Json → Text) (ms : Members) (d : ℕ) (s : Text) (c : DeleteCall (List Text))
    → get ms (codes "userIds") ≡ text (d ∷ s)
    → read_delete_batch repr ms ≡ ok c
    → c.who ≡ map (λ e. e ∷ []) (d ∷ s)
unfolding read_delete_batch iterate is_true
read_delete_batch-characters repr ms d s c e h =
    let found =
      first_true-first (array no_elements) ms (codes "userIds")
        (codes "user_ids" ∷ codes "pins" ∷ codes "users" ∷ []) d s e in
    ground (arith, h, found, Result-cases (read_link 8 ms), characters-format repr (d ∷ s))
