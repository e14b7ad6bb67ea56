-- ===== src/Iclock/History/Pruned.antt =====
-- The order of the punches that are kept, and which are kept.
use pumo_bio_metric.Prelude.{
  ℕ, ◌≡◌, refl, ◌∙◌, arith, leb, Bool, true, ◌&&◌, Bool-cases, inl, inr, List, [], ◌∷◌, all,
  filter_by, count_by, if◌then◌else◌, Option, none, some,
}
use pumo_bio_metric.Text.{Text, strip}
use pumo_bio_metric.Dict
use pumo_bio_metric.Iclock.{UserInfo, PunchRow, Iclock, Outside, save_punches, save_user_cache}
use pumo_bio_metric.Iclock.Names.{get_user_info, remember, has_real_name}
use pumo_bio_metric.Iclock.History.{
  Iso, log_timestamp, is_since, days_before, key, insert_latest, latest_first, prune, completed,
  broadcast_punch,
}

module _ (iso : Iso) where
  -- No later punch stands behind an earlier one.
  unfoldable pub is_latest_first : List PunchRow → Bool
  is_latest_first [] = true
  is_latest_first (p ∷ ps) = all (λ q. leb (key iso q) (key iso p)) ps && is_latest_first ps

  abbrev pub is_kept : ℕ → PunchRow → Bool
  is_kept now p = is_since (days_before now 30) (log_timestamp iso p)

  count_by-insert_latest :
      (t : PunchRow → Bool) (p : PunchRow) (ps : List PunchRow)
      → count_by t (insert_latest iso p ps) ≡ count_by t (p ∷ ps)
  unfolding insert_latest count_by
  count_by-insert_latest t p [] = refl
  count_by-insert_latest t p (q ∷ qs) = ground (arith, count_by-insert_latest t p qs)

  count_by-latest_first :
      (t : PunchRow → Bool) (ps : List PunchRow) → count_by t (latest_first iso ps) ≡ count_by t ps
  unfolding latest_first count_by
  count_by-latest_first t [] = refl
  count_by-latest_first t (p ∷ ps) =
      ground (arith, count_by-insert_latest t p (latest_first iso ps), count_by-latest_first t ps)

  count_by-filter_by :
      (t k : PunchRow → Bool) (ps : List PunchRow)
      → count_by t (filter_by k ps) ≡ count_by (λ p. t p && k p) ps
  unfolding filter_by count_by
  count_by-filter_by t k [] = refl
  count_by-filter_by t k (p ∷ ps) = ground (arith, count_by-filter_by t k ps)

  all-insert_latest :
      (t : PunchRow → Bool) (p : PunchRow) (ps : List PunchRow)
      → all t (insert_latest iso p ps) ≡ (t p && all t ps)
  unfolding insert_latest all
  all-insert_latest t p [] = refl
  all-insert_latest t p (q ∷ qs) = ground (arith, all-insert_latest t p qs)

  all-latest_first :
      (t : PunchRow → Bool) (ps : List PunchRow) → all t (latest_first iso ps) ≡ all t ps
  unfolding latest_first all
  all-latest_first t [] = refl
  all-latest_first t (p ∷ ps) =
      ground (arith, all-insert_latest t p (latest_first iso ps), all-latest_first t ps)

  all-filter_by : (k : PunchRow → Bool) (ps : List PunchRow) → all k (filter_by k ps) ≡ true
  unfolding filter_by all
  all-filter_by k [] = refl
  all-filter_by k (p ∷ ps) = ground (arith, all-filter_by k ps)

  -- What is at most one key is at most a greater one.
  all-leb :
      (a b : ℕ) (ps : List PunchRow)
      → leb a b ≡ true
      → all (λ q. leb (key iso q) a) ps ≡ true
      → all (λ q. leb (key iso q) b) ps ≡ true
  unfolding all
  all-leb a b [] h k = refl
  all-leb a b (p ∷ ps) h k = ground (arith, all-leb a b ps)

  insert_latest-is_latest_first :
      (p : PunchRow) (ps : List PunchRow)
      → is_latest_first ps ≡ true
      → is_latest_first (insert_latest iso p ps) ≡ true
  unfolding insert_latest is_latest_first all
  insert_latest-is_latest_first p [] h = refl
  insert_latest-is_latest_first p (q ∷ qs) h = ground (
    arith,
    insert_latest-is_latest_first p qs,
    all-leb (key iso q) (key iso p) qs,
    all-insert_latest (λ r. leb (key iso r) (key iso q)) p qs,
    h,
  )

  latest_first-is_latest_first : (ps : List PunchRow) → is_latest_first (latest_first iso ps) ≡ true
  unfolding latest_first is_latest_first
  latest_first-is_latest_first [] = refl
  latest_first-is_latest_first (p ∷ ps) =
      insert_latest-is_latest_first p _ (latest_first-is_latest_first ps)

-- The question for a name changes neither the punches nor their file.
abbrev SamePunches : Iclock → Iclock → Type 0
SamePunches s s' = (s'.punches ≡ s.punches) × (s'.saved_punches ≡ s.saved_punches)

remember-SamePunches :
    (out : Outside) (pin : Text) (o : Option UserInfo) (s : Iclock)
    → SamePunches s (remember out pin o s).1
unfolding save_user_cache
remember-SamePunches out pin none s = (refl, refl)
remember-SamePunches out pin (some u) s = elim (Bool-cases (out.can_write)) [
  | inl t ↦ rw t (refl, refl)
  | inr f ↦ rw f (refl, refl)
]

get_user_info-SamePunches :
    (out : Outside) (pin : Text) (s : Iclock) → SamePunches s (get_user_info out pin s).1
unfolding get_user_info
get_user_info-SamePunches out pin s =
    elim (Bool-cases (has_real_name (Dict.get s.users (strip pin)))) [
      | inl t ↦ rw t (refl, refl)
      | inr f ↦ rw f (remember-SamePunches out _ _ s)
    ]

punches-save_punches : (out : Outside) (s : Iclock) → (save_punches out s).punches ≡ s.punches
unfolding save_punches
punches-save_punches out s = elim (Bool-cases (out.can_write)) [
  | inl t ↦ rw t refl
  | inr f ↦ rw f refl
]

saved_punches-save_punches :
    (out : Outside) (s : Iclock)
    → (save_punches out s).saved_punches ≡ (if out.can_write then s.punches else s.saved_punches)
unfolding save_punches
saved_punches-save_punches out s = elim (Bool-cases (out.can_write)) [
  | inl t ↦ rw t refl
  | inr f ↦ rw f refl
]

-- After a punch is broadcast, the punches that the service keeps stand with the latest first, none
-- of them is dated more than 30 days before now, and they are exactly the completed punch and the
-- punches that were kept before, each as often as before, but for those that are dated more than 30
-- days before now; the file has the same punches when it can be written, and what it had otherwise.
pub broadcast_punch-is_latest_first :
    (iso : Iso) (out : Outside) (now : ℕ) (p : PunchRow) (s : Iclock) (t : PunchRow → Bool)
    → let s' = broadcast_punch iso out now p s in
      let new = completed iso (get_user_info out (strip p.user_id) s).0 p in
      (is_latest_first iso s'.punches ≡ true)
      × (all (is_kept iso now) s'.punches ≡ true)
      × (count_by t s'.punches ≡ count_by (λ q. t q && is_kept iso now q) (new ∷ s.punches))
      × (s'.saved_punches ≡ (if out.can_write then s'.punches else s.saved_punches))
unfolding broadcast_punch prune
broadcast_punch-is_latest_first iso out now p s t =
    let (same_log, same_file) = get_user_info-SamePunches out (strip p.user_id) s in
    rw (punches-save_punches, saved_punches-save_punches, same_log, same_file)
      (
        latest_first-is_latest_first iso _,
        all-latest_first iso _ _ ∙ all-filter_by iso _ _,
        count_by-latest_first iso t _ ∙ count_by-filter_by iso t _ _,
        refl,
      )
