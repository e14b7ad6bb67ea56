-- ===== src/Hardware/Remaining.antt =====
-- What a batch of deletions on a hardware reader reports, against the users that remain there.
use mathlib.Core.Path.{subst}
use pumo_bio_metric.Prelude.{
  ℕ, ◌≡◌, refl, ◌∙◌, Bool, true, false, not, ◌||◌, List, [], ◌∷◌, map, all, Option, none, some,
  arith, Bool-cases, inl, inr,
}
use pumo_bio_metric.Text.{Text, strip}
use pumo_bio_metric.Dict.{Dict}
use pumo_bio_metric.Device.{DeviceInfo, resolve_device}
use pumo_bio_metric.Sim.{override_ip}
use pumo_bio_metric.Hardware.{HwUser, Driver, Hw}
use pumo_bio_metric.Hardware.Triples.{
  Post, Triple, Holds, Caught, attempt-Triple, >>=-Triple, pure-Triple, note-Triple, attempt-Holds,
  run-Holds, get_users-Triple, weaken, Anything, anything, assume,
}
use pumo_bio_metric.Hardware.Settled.{latest, has_none, close-latest}
use pumo_bio_metric.Hardware.Batch.{
  ItemResult, HwBatchReply, removed, listed_on, checked_item, checked, replied, delete_item,
  delete_items, forget_gone, settle, batch_body, or_failed, batch_run, delete_batch_real,
}

abbrev pub names : List ItemResult → List Text
names = map (λ (r : ItemResult). r.user_id)

-- Each deletion that the results report is one of a user whom the reader lists no more.
abbrev pub all_gone : Option (List HwUser) → List ItemResult → Bool
all_gone users = all (λ (r : ItemResult). not r.deleted || has_none r.user_id users)

checked-all_gone :
    (remaining : List HwUser) (rs : List ItemResult)
    → all_gone (some remaining) (checked false remaining rs) ≡ true
unfolding checked checked_item all
checked-all_gone remaining [] = refl
checked-all_gone remaining (r ∷ rs) = ground (arith, checked-all_gone remaining rs)

names-checked :
    (only : Bool) (remaining : List HwUser) (rs : List ItemResult)
    → names (checked only remaining rs) ≡ names rs
unfolding checked checked_item
names-checked only remaining [] = refl
names-checked only remaining (r ∷ rs) = ground (arith, names-checked only remaining rs)

module _ (D : Driver) (sn : Text) (only : Bool) where
  abbrev Named : Text → ItemResult → Hw D → Type 0
  Named pin r h = r.user_id ≡ pin

  abbrev AllNamed : List Text → List ItemResult → Hw D → Type 0
  AllNamed uids rs h = names rs ≡ map strip uids

  removed-Named : (pin : Text) (o : Option (Unit {0})) (h : Hw D) → Named pin (removed pin o) h
  removed-Named pin none h = refl
  removed-Named pin (some _) h = refl

  delete_item-Triple :
      (pin : Text) (u : Option HwUser)
      → Triple Anything (delete_item D sn only pin u) (Named pin) Anything
  unfolding delete_item
  delete_item-Triple pin none = pure-Triple _ (λ h p. refl)
  delete_item-Triple pin (some u) = elim (Bool-cases only) [
    | inl t ↦ rw t (>>=-Triple (anything _) (λ _. pure-Triple _ (λ h p. refl)))
    | inr f ↦ rw f (>>=-Triple (anything _) (λ o. pure-Triple _ (λ h p. removed-Named pin o h)))
  ]

  delete_items-Triple :
      (users : List HwUser) (uids : List Text)
      → Triple Anything (delete_items D sn only users uids) (AllNamed uids) Anything
  unfolding delete_items
  delete_items-Triple users [] = pure-Triple _ (λ h p. refl)
  delete_items-Triple users (uid ∷ uids) = >>=-Triple (delete_item-Triple _ _) (λ r. assume (λ e.
      >>=-Triple (delete_items-Triple users uids) (λ rs. pure-Triple _ (λ h p. rw (e, p) refl))))

  abbrev Reported : List Text → HwBatchReply → Hw D → Type 0
  Reported uids reply h =
      reply.failed ≡ false
      → (names reply.results ≡ map strip uids)
        × ((only || all_gone (latest h.log) reply.results) ≡ true)

  abbrev AsLatest : List HwUser → Hw D → Type 0
  AsLatest users h = latest h.log ≡ some users

  forget_gone-Holds :
      (remaining users : List HwUser) (rs : List ItemResult)
      → Holds (AsLatest users) (forget_gone D sn only remaining rs)
  unfolding forget_gone latest
  forget_gone-Holds remaining users [] = pure-Triple _ (λ h p. p)
  forget_gone-Holds remaining users (r ∷ rs) =
      elim (Bool-cases (only || not r.deleted || listed_on remaining r)) [
        | inl t ↦
            rw t (>>=-Triple (pure-Triple _ (λ h p. p)) (λ _. forget_gone-Holds remaining users rs))
        | inr f ↦ rw f (
            >>=-Triple (note-Triple {Q = AsLatest users} _ (λ h p. p))
              (λ _. forget_gone-Holds remaining users rs))
      ]

  checked_lem :
      (remaining : List HwUser) (rs : List ItemResult) (h : Hw D)
      → AsLatest remaining h
      → (only || all_gone (latest h.log) (checked only remaining rs)) ≡ true
  checked_lem remaining rs h p = elim (Bool-cases only) [
    | inl t ↦ rw t refl
    | inr f ↦ rw (f, p) (checked-all_gone remaining rs)
  ]

  replied_lem :
      (uids : List Text) (remaining : List HwUser) (rs : List ItemResult) (done : Option (Unit {0}))
      (h : Hw D)
      → names rs ≡ map strip uids
      → AsLatest remaining h
      → Reported uids (replied done (checked only remaining rs)) h
  replied_lem uids remaining rs none h n p = λ f. ground arith
  replied_lem uids remaining rs (some _) h n p =
      λ f. (names-checked only remaining rs ∙ n, checked_lem remaining rs h p)

  settle-Triple :
      (uids : List Text) (rs : List ItemResult) (o : Option (List HwUser))
      → names rs ≡ map strip uids
      → Triple (Caught AsLatest Anything o) (settle D sn only rs o) (Reported uids) Anything
  unfolding settle latest
  settle-Triple uids rs none n = pure-Triple _ (λ h p f. ground arith)
  settle-Triple uids rs (some remaining) n =
      >>=-Triple (weaken (λ _ h p. p) (λ h p. tt) (forget_gone-Holds remaining remaining rs)) (λ _.
        >>=-Triple
          (weaken (λ _ h p. p) (λ h p. tt)
            (attempt-Holds (run-Holds {P = AsLatest remaining} _ _ (λ h w p. p))))
          (λ done. pure-Triple _ (λ h p. replied_lem uids remaining rs done h n p)))

  batch_body-Triple :
      (ip : Text) (port : ℕ) (uids : List Text)
      → Triple Anything (batch_body D sn only ip port uids) (Reported uids) Anything
  unfolding batch_body latest
  batch_body-Triple ip port uids = >>=-Triple (anything _) (λ _. >>=-Triple (anything _) (λ _.
      >>=-Triple (anything _) (λ users. >>=-Triple (delete_items-Triple users uids) (λ rs.
        assume (λ n.
          >>=-Triple
            (attempt-Triple (
              >>=-Triple (anything _)
                (λ _. get_users-Triple {Q = AsLatest} _ (λ h w us p. refl) (λ h w p. tt))))
            (λ o. settle-Triple uids rs o n))))))

  or_failed-Reported :
      (uids : List Text) (o : Option HwBatchReply × Hw D)
      → Post (Reported uids) Anything o
      → Reported uids (or_failed D sn only o.0) o.1
  or_failed-Reported uids (some reply, h) p = p
  or_failed-Reported uids (none, h) p = λ f. ground arith

  batch_run-Reported :
      (ip : Text) (port : ℕ) (uids : List Text) (h : Hw D)
      → Reported uids (batch_run D sn only ip port uids h).0 (batch_run D sn only ip port uids h).1
  unfolding batch_run
  batch_run-Reported ip port uids h f = rw close-latest (
      or_failed-Reported uids (batch_body D sn only ip port uids (record h { log = [] }))
        ((batch_body-Triple ip port uids).post _ tt) f)

  abbrev Answered : List Text → Option HwBatchReply → Hw D → Type 0
  Answered uids none h = Unit {0}
  Answered uids (some reply) h = Reported uids reply h

delete_batch_real-Answered :
    (D : Driver) (has_pyzk only : Bool) (registry : Dict DeviceInfo) (port : ℕ) (ip : Option Text)
    (device_id : Text) (uids : List Text) (h : Hw D)
    → Answered D
        (override_ip ip (resolve_device registry port device_id)).sn
        only
        uids
        (delete_batch_real D has_pyzk registry port ip device_id uids only h).0
        (delete_batch_real D has_pyzk registry port ip device_id uids only h).1
unfolding delete_batch_real all
delete_batch_real-Answered D has_pyzk only registry port ip device_id [] h =
    λ f. (refl, elim (Bool-cases only) [ inl t ↦ rw t refl | inr f ↦ rw f refl ])
delete_batch_real-Answered D true only registry port ip device_id (uid ∷ uids) h =
    batch_run-Reported D _ only _ _ (uid ∷ uids) h
delete_batch_real-Answered D false only registry port ip device_id (uid ∷ uids) h = tt

-- When a batch of deletions on a hardware reader runs to its end, it has one result for each
-- requested PIN, in order; and when whole users were to go, each result that reports a deletion is
-- for a PIN that the reader did not have in the list that it gave last.
pub delete_batch_real-all_gone :
    (D : Driver) (has_pyzk only : Bool) (registry : Dict DeviceInfo) (port : ℕ) (ip : Option Text)
    (device_id : Text) (uids : List Text) (h : Hw D) (reply : HwBatchReply)
    → (delete_batch_real D has_pyzk registry port ip device_id uids only h).0 ≡ some reply
    → reply.failed ≡ false
    → (names reply.results ≡ map strip uids)
      × ((only
            || all_gone
                (latest (delete_batch_real D has_pyzk registry port ip device_id uids only h).1.log)
                reply.results)
          ≡ true)
delete_batch_real-all_gone D has_pyzk only registry port ip device_id uids h reply e =
    subst
      (λ o.
        Answered D (override_ip ip (resolve_device registry port device_id)).sn only uids o
          (delete_batch_real D has_pyzk registry port ip device_id uids only h).1)
      e (delete_batch_real-Answered D has_pyzk only registry port ip device_id uids h)
