-- ===== src/Hardware/Keeps.antt =====
-- What a run makes of a property of its log, whether it raises or not.
use pumo_bio_metric.Prelude.{
  ℕ, ◌≡◌, refl, Bool, true, not, List, ◌∷◌, Option, none, some, Bool-cases, inl, inr,
}
use pumo_bio_metric.Text.{Text}
use pumo_bio_metric.Hardware.{
  HwUser, End, same_end, source, Command, enable, disconnect, delete_user, Driver, Event, connected,
  ran, listed, Hw, M, ◌>>=◌, pure, attempt, raise, note, continue, connect, run, noted, get_users,
  quietly, close, is_open,
}

-- No event of this kind takes a user off the reader of the first connection.
abbrev pub is_quiet : Event → Bool
is_quiet (ran e (delete_user _ _)) = not (same_end e source)
is_quiet _ = true

-- A property of the log that quiet events keep.
abbrev pub IsKept : (List Event → Type 0) → Type 0
IsKept P = (e : Event) (log : List Event) → is_quiet e ≡ true → P log → P (e ∷ log)

-- From one property of the log to another.
pub record Leads {D : Driver} {A : Type 0} (P Q : List Event → Type 0) (m : M D A) : Type 0 where
  pub lead : (h : Hw D) → P h.log → Q (m h).1.log

abbrev pub Keeps : {D : Driver} {A : Type 0} → (List Event → Type 0) → M D A → Type 0
Keeps P = Leads P P

pub continue-lead :
    {D : Driver} {A B : Type 0} {R Q : List Event → Type 0} (o : Option A × Hw D) (f : A → M D B)
    → R o.1.log
    → ((log : List Event) → R log → Q log)
    → ((a : A) → Leads R Q (f a))
    → Q (continue o f).1.log
continue-lead (none, h) f r w k = w h.log r
continue-lead (some a, h) f r w k = (k a).lead h r

module _ {D : Driver} {A B : Type 0} {P R Q : List Event → Type 0} where
  pub >>=-Leads :
      {m : M D A} {f : A → M D B}
      → Leads P R m
      → ((log : List Event) → R log → Q log)
      → ((a : A) → Leads R Q (f a))
      → Leads P Q (m >>= f)
  unfolding ◌>>=◌
  >>=-Leads {m} {f} p w k = record { lead = λ h q. continue-lead (m h) f (p.lead h q) w k }

module _ {D : Driver} {P : List Event → Type 0} where
  pub >>=-Keeps :
      {A B : Type 0} {m : M D A} {f : A → M D B}
      → Keeps P m
      → ((a : A) → Keeps P (f a))
      → Keeps P (m >>= f)
  >>=-Keeps p k = >>=-Leads p (λ _ q. q) k

  pub pure-Keeps : {A : Type 0} (a : A) → Keeps P (pure {D = D} a)
  unfolding pure
  pure-Keeps a = record { lead = λ h p. p }

  pub raise-Keeps : {A : Type 0} → Keeps P (raise {D = D} {A = A})
  unfolding raise
  raise-Keeps = record { lead = λ h p. p }

  pub attempt-Keeps : {A : Type 0} {m : M D A} → Keeps P m → Keeps P (attempt m)
  unfolding attempt
  attempt-Keeps k = record { lead = λ h p. k.lead h p }

  pub quietly-Keeps : {A : Type 0} (f : D.World → Option A × D.World) → Keeps P (quietly D f)
  unfolding quietly
  quietly-Keeps f = record { lead = λ h p. p }

  pub connect-Keeps : (e : End) (ip : Text) (port : ℕ) → IsKept P → Keeps P (connect D e ip port)
  unfolding connect
  connect-Keeps e ip port kept = record {
    lead = λ h p. elim (Bool-cases (D.connect e ip port h.world).0) [
      | inl t ↦ rw t (kept (connected e) h.log refl p)
      | inr f ↦ rw f p
    ];
  }

  pub run-Keeps :
      (e : End) (c : Command) → IsKept P → is_quiet (ran e c) ≡ true → Keeps P (run D e c)
  unfolding run
  run-Keeps e c kept q = record { lead = λ h p. kept (ran e c) h.log q p }

  pub note-Keeps : (e : Event) → IsKept P → is_quiet e ≡ true → Keeps P (note {D = D} e)
  unfolding note
  note-Keeps e kept q = record { lead = λ h p. kept e h.log q p }

  pub close-Keeps : (e : End) → IsKept P → Keeps P (close D e)
  unfolding close
  close-Keeps e kept = record {
    lead = λ h p. elim (Bool-cases (is_open e h.log)) [
      | inl t ↦
          rw t
            (kept (ran e disconnect) (ran e enable ∷ h.log) refl (kept (ran e enable) h.log refl p))
      | inr f ↦ rw f p
    ];
  }

pub noted_lem :
    {P : List Event → Type 0} (e : End) (users : Option (List HwUser)) (log : List Event)
    → IsKept P
    → P log
    → P (noted e users log)
noted_lem e none log kept p = p
noted_lem e (some users) log kept p = kept (listed e users) log refl p

pub get_users-Keeps :
    {D : Driver} {P : List Event → Type 0} (e : End) → IsKept P → Keeps P (get_users D e)
unfolding get_users
get_users-Keeps {D} {P} e kept = record {
  lead = λ h p. noted_lem e (D.get_users e h.world).0 h.log kept p;
}
