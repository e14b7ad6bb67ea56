-- ===== src/Tests/Database.antt =====
-- A table in memory, with a switch for the state of the server.
use pumo_bio_metric.Prelude.{
  ℕ, suc, if◌then◌else◌, ◌≡◌, refl, Bool, true, false, ◌&&◌, List, [], ◌∷◌, any, all, ap, ◌==◌,
  arith, Bool-cases, inl, inr,
}
use mathlib.Core.Path.{subst}
use pumo_bio_metric.Text.{same, same_refl}
use pumo_bio_metric.Text.Numbers.{pos, negsuc, same_ℤ}
use pumo_bio_metric.Sync.Time.{DateTime}
use pumo_bio_metric.Sync.Punch.{Scalar, null, number, text, Punch}
use pumo_bio_metric.Sync.Ingest.{Outcome, inserted, driver_error, other_error, Lms}

pub data Server : Type 0 where
  up down broken : Server

pub record Table : Type 0 where
  pub server : Server
  pub rows : List Punch

abbrev pub same_scalar : Scalar → Scalar → Bool
same_scalar null null = true
same_scalar (number a) (number b) = same_ℤ a b
same_scalar (text a) (text b) = same a b
same_scalar _ _ = false

abbrev pub same_time : DateTime → DateTime → Bool
same_time t u =
    t.year == u.year
    && t.month == u.month
    && t.day == u.day
    && (t.hour == u.hour && t.minute == u.minute && t.second == u.second)

abbrev pub same_key : Punch → Punch → Bool
same_key p q =
    same_scalar p.device_serial q.device_serial
    && same p.device_user_id q.device_user_id
    && same_time p.device_time q.device_time

abbrev pub is_stored : Table → Punch → Bool
is_stored t p = any (λ q. same_key q p) t.rows

unfoldable pub insert_rows : List Punch → List Punch → ℕ × List Punch
unfolding any
insert_rows rows [] = (0, rows)
insert_rows rows (p ∷ ps) =
    let kept = insert_rows rows ps in
    let (n, rows') = insert_rows (p ∷ rows) ps in
    if any (λ q. same_key q p) rows then kept else (suc n, rows')

abbrev pub insert_by : Server → List Punch → List Punch → Outcome × Table
insert_by up rows ps =
    let (n, rows') = insert_rows rows ps in (inserted n, record { server = up; rows = rows' })
insert_by down rows ps = (driver_error, record { server = down; rows = rows })
insert_by broken rows ps = (other_error, record { server = broken; rows = rows })

same_scalar_refl : (a : Scalar) → same_scalar a a ≡ true
same_scalar_refl null = refl
same_scalar_refl (number (pos n)) = ground arith
same_scalar_refl (number (negsuc n)) = ground arith
same_scalar_refl (text a) = same_refl a

same_key_refl : (p : Punch) → same_key p p ≡ true
same_key_refl p = rw (same_scalar_refl p.device_serial, same_refl p.device_user_id) (ground arith)

any-here : (p : Punch) (rows : List Punch) → any (λ q. same_key q p) (p ∷ rows) ≡ true
unfolding any
any-here p rows = rw (same_key_refl p) refl

insert_rows-keeps :
    (rows ps : List Punch) (p : Punch)
    → any (λ q. same_key q p) rows ≡ true
    → any (λ q. same_key q p) (insert_rows rows ps).1 ≡ true
unfolding insert_rows
insert_rows-keeps rows [] p h = h
insert_rows-keeps rows (r ∷ ps) p h = elim (Bool-cases (any (λ q. same_key q r) rows)) [
  | inl e ↦ rw e (insert_rows-keeps rows ps p h)
  | inr e ↦ rw e (insert_rows-keeps (r ∷ rows) ps p (rw h (ground arith)))
]

insert_rows-stores :
    (rows ps final : List Punch)
    → (insert_rows rows ps).1 ≡ final
    → all (λ p. any (λ q. same_key q p) final) ps ≡ true
unfolding insert_rows all
insert_rows-stores rows [] final h = refl
insert_rows-stores rows (r ∷ ps) final h = elim (Bool-cases (any (λ q. same_key q r) rows)) [
  | inl e ↦
      (let k : (insert_rows rows ps).1 ≡ final = rw e at h in
        rw (subst (λ x. any (λ q. same_key q r) x ≡ true) k (insert_rows-keeps rows ps r e))
          (insert_rows-stores rows ps final k))
  | inr e ↦
      (let k : (insert_rows (r ∷ rows) ps).1 ≡ final = rw e at h in
        rw
          (subst (λ x. any (λ q. same_key q r) x ≡ true) k
            (insert_rows-keeps (r ∷ rows) ps r (any-here r rows)))
          (insert_rows-stores (r ∷ rows) ps final k))
]

pub insert_by-stores :
    (server : Server) (rows ps : List Punch) (n : ℕ) (t : Table)
    → insert_by server rows ps ≡ (inserted n, t)
    → all (is_stored t) ps ≡ true
insert_by-stores up rows ps n t h = insert_rows-stores rows ps t.rows (ap (λ o. o.1.rows) h)
insert_by-stores down rows ps n t h = ground (arith, h)
insert_by-stores broken rows ps n t h = ground (arith, h)

pub insert_by-keeps :
    (server : Server) (rows ps : List Punch) (p : Punch)
    → any (λ q. same_key q p) rows ≡ true
    → is_stored (insert_by server rows ps).1 p ≡ true
insert_by-keeps up rows ps p h = insert_rows-keeps rows ps p h
insert_by-keeps down rows ps p h = h
insert_by-keeps broken rows ps p h = h

abbrev pub memory : Lms
memory = record {
  Table = Table;
  stored = is_stored;
  execute_values = λ t ps. insert_by t.server t.rows ps;
  insert_stores = λ t t' ps n h. insert_by-stores t.server t.rows ps n t' h;
  insert_keeps = λ t ps p h. insert_by-keeps t.server t.rows ps p h;
}
