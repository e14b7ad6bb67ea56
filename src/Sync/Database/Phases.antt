-- ===== src/Sync/Database/Phases.antt =====
-- Counting the threads of the pool by what they have.
use pumo_bio_metric.Prelude.{
  ℕ, zero, suc, ◌+◌, ◌≡◌, refl, Bool, true, false, List, [], ◌∷◌, if◌then◌else◌, none, some, ◌==◌,
  ltb, arith, count_by, all,
}
use pumo_bio_metric.Sync.Database.{
  Phase, free, checked, ensured, using, releasing, returning, phase_at, set_phase,
}

-- The thread has a connection of the pool, or has left it and not given it back yet.
abbrev pub is_using : ℕ → Phase → Bool
is_using id (free e) = false
is_using id checked = false
is_using id (ensured o) = false
is_using id (using i) = i == id
is_using id (releasing e i) = i == id
is_using id (returning e i) = i == id

abbrev pub one : Bool → ℕ
one b = if b then 1 else 0

-- No thread has a connection of a pool that was not opened yet.
abbrev pub is_past : ℕ → Phase → Bool
is_past opened (free e) = true
is_past opened checked = true
is_past opened (ensured none) = true
is_past opened (ensured (some i)) = ltb i opened
is_past opened (using i) = ltb i opened
is_past opened (releasing e i) = ltb i opened
is_past opened (returning e i) = ltb i opened

pub count-set_phase :
    (f : Phase → Bool) (n : ℕ) (q p : Phase) (ps : List Phase)
    → phase_at n ps ≡ some p
    → count_by f (set_phase n q ps) + one (f p) ≡ count_by f ps + one (f q)
unfolding count_by set_phase
count-set_phase f n q p [] h = absurd (ground (arith, h))
count-set_phase f zero q p (r ∷ ps) h = ground (arith, h)
count-set_phase f (suc n) q p (r ∷ ps) h = ground (arith, count-set_phase f n q p ps h)

pub all-set_phase :
    (f : Phase → Bool) (n : ℕ) (q : Phase) (ps : List Phase)
    → all f ps ≡ true
    → f q ≡ true
    → all f (set_phase n q ps) ≡ true
unfolding all set_phase
all-set_phase f n q [] h k = refl
all-set_phase f zero q (r ∷ ps) h k = ground (arith, h, k)
all-set_phase f (suc n) q (r ∷ ps) h k = ground (arith, h, all-set_phase f n q ps, k)

pub all-phase_at :
    (f : Phase → Bool) (n : ℕ) (p : Phase) (ps : List Phase)
    → all f ps ≡ true
    → phase_at n ps ≡ some p
    → f p ≡ true
unfolding all
all-phase_at f n p [] h k = absurd (ground (arith, k))
all-phase_at f zero p (r ∷ ps) h k = ground (arith, h, k)
all-phase_at f (suc n) p (r ∷ ps) h k = ground (arith, h, all-phase_at f n p ps, k)

past-suc : (k : ℕ) (p : Phase) → is_past k p ≡ true → is_past (suc k) p ≡ true
past-suc k (free e) h = refl
past-suc k checked h = refl
past-suc k (ensured none) h = refl
past-suc k (ensured (some i)) h = ground (arith, h)
past-suc k (using i) h = ground (arith, h)
past-suc k (releasing e i) h = ground (arith, h)
past-suc k (returning e i) h = ground (arith, h)

past-unused : (k : ℕ) (p : Phase) → is_past k p ≡ true → is_using k p ≡ false
past-unused k (free e) h = refl
past-unused k checked h = refl
past-unused k (ensured o) h = refl
past-unused k (using i) h = ground (arith, h)
past-unused k (releasing e i) h = ground (arith, h)
past-unused k (returning e i) h = ground (arith, h)

pub all-past_suc :
    (k : ℕ) (ps : List Phase) → all (is_past k) ps ≡ true → all (is_past (suc k)) ps ≡ true
unfolding all
all-past_suc k [] h = refl
all-past_suc k (p ∷ ps) h = ground (arith, h, past-suc k p, all-past_suc k ps)

-- Nobody uses a pool that was not opened yet.
pub count-unused :
    (k : ℕ) (ps : List Phase) → all (is_past k) ps ≡ true → count_by (is_using k) ps ≡ 0
unfolding all count_by
count-unused k [] h = refl
count-unused k (p ∷ ps) h = ground (arith, h, past-unused k p, count-unused k ps)
