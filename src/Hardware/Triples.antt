-- ===== src/Hardware/Triples.antt =====
-- What holds after a run that answers, and after one that raises.
use pumo_bio_metric.Prelude.{ℕ, Bool, List, ◌∷◌, Option, none, some, if◌then◌else◌}
use pumo_bio_metric.Text.{Text}
use pumo_bio_metric.Hardware.{
  HwUser, End, Command, Driver, Event, connected, ran, listed, Hw, M, ◌>>=◌, pure, raise, attempt,
  note, continue, connect, run, noted, get_users, quietly,
}

module _ {D : Driver} where
  abbrev pub Post : {A : Type 0} → (A → Hw D → Type 0) → (Hw D → Type 0) → Option A × Hw D → Type 0
  Post Q R (some a, h) = Q a h
  Post Q R (none, h) = R h

  pub record Triple {A : Type 0} (P : Hw D → Type 0) (m : M D A) (Q : A → Hw D → Type 0)
      (R : Hw D → Type 0) : Type 0 where
    pub post : (h : Hw D) → P h → Post Q R (m h)

  -- `P` holds before and after, whether the run raises or not.
  abbrev pub Holds : {A : Type 0} → (Hw D → Type 0) → M D A → Type 0
  Holds P m = Triple P m (λ _ h. P h) P

  continue-Post :
      {A B : Type 0} {S : A → Hw D → Type 0} {Q : B → Hw D → Type 0} {R : Hw D → Type 0}
      (o : Option A × Hw D) (f : A → M D B)
      → Post S R o
      → ((a : A) → Triple (S a) (f a) Q R)
      → Post Q R (continue o f)
  continue-Post (none, h) f p k = p
  continue-Post (some a, h) f p k = (k a).post h p

  pub >>=-Triple :
      {A B : Type 0} {P : Hw D → Type 0} {S : A → Hw D → Type 0} {Q : B → Hw D → Type 0}
      {R : Hw D → Type 0} {m : M D A} {f : A → M D B}
      → Triple P m S R
      → ((a : A) → Triple (S a) (f a) Q R)
      → Triple P (m >>= f) Q R
  unfolding ◌>>=◌
  >>=-Triple {m} {f} t k = record { post = λ h p. continue-Post (m h) f (t.post h p) k }

  pub pure-Triple :
      {A : Type 0} {P : Hw D → Type 0} {Q : A → Hw D → Type 0} {R : Hw D → Type 0} (a : A)
      → ((h : Hw D) → P h → Q a h)
      → Triple P (pure a) Q R
  unfolding pure
  pure-Triple a k = record { post = k }

  pub raise-Triple :
      {A : Type 0} {P R : Hw D → Type 0} {Q : A → Hw D → Type 0}
      → ((h : Hw D) → P h → R h)
      → Triple P (raise {A = A}) Q R
  unfolding raise
  raise-Triple k = record { post = k }

  post-attempt :
      {A : Type 0} (P : Hw D → Type 0) (o : Option A × Hw D) → Post (λ _ h. P h) P o → P o.1
  post-attempt P (none, h) p = p
  post-attempt P (some a, h) p = p

  pub attempt-Holds : {A : Type 0} {P : Hw D → Type 0} {m : M D A} → Holds P m → Holds P (attempt m)
  unfolding attempt
  attempt-Holds {P} {m} t = record { post = λ h p. post-attempt P (m h) (t.post h p) }

  pub note-Triple :
      {P R : Hw D → Type 0} {Q : Hw D → Type 0} (e : Event)
      → ((h : Hw D) → P h → Q (record h { log = e ∷ h.log }))
      → Triple P (note e) (λ _ h. Q h) R
  unfolding note
  note-Triple e k = record { post = k }

  pair-Post :
      {A : Type 0} (P : Hw D → Type 0) (o : Option A) (h : Hw D) → P h → Post (λ _ h. P h) P (o, h)
  pair-Post P (some a) h p = p
  pair-Post P none h p = p

  pub run-Triple :
      {P Q : Hw D → Type 0} (e : End) (c : Command)
      → ((h : Hw D) (w : D.World) → P h → Q (record h { world = w; log = ran e c ∷ h.log }))
      → Triple P (run D e c) (λ _. Q) Q
  unfolding run
  run-Triple {Q} e c k = record { post = λ h p. pair-Post Q _ _ (k h _ p) }

  pub run-Holds :
      {P : Hw D → Type 0} (e : End) (c : Command)
      → ((h : Hw D) (w : D.World) → P h → P (record h { world = w; log = ran e c ∷ h.log }))
      → Holds P (run D e c)
  run-Holds e c k = run-Triple e c k

  pub quietly-Holds :
      {A : Type 0} {P : Hw D → Type 0} (f : D.World → Option A × D.World)
      → ((h : Hw D) (w : D.World) → P h → P (record h { world = w }))
      → Holds P (quietly D f)
  unfolding quietly
  quietly-Holds {P} f k = record { post = λ h p. pair-Post P _ _ (k h _ p) }

  pub connect-Holds :
      {P : Hw D → Type 0} (e : End) (ip : Text) (port : ℕ)
      → ((h : Hw D) (w : D.World) (b : Bool)
          → P h
          → P (record h { world = w; log = if b then connected e ∷ h.log else h.log }))
      → Holds P (connect D e ip port)
  unfolding connect
  connect-Holds {P} e ip port k = record { post = λ h p. pair-Post P _ _ (k h _ _ p) }

  noted-Post :
      (Q : List HwUser → Hw D → Type 0) (R : Hw D → Type 0) (e : End) (o : Option (List HwUser))
      (h : Hw D) (w : D.World)
      → ((users : List HwUser) → Q users (record h { world = w; log = listed e users ∷ h.log }))
      → R (record h { world = w })
      → Post Q R (o, record h { world = w; log = noted e o h.log })
  noted-Post Q R e (some users) h w q r = q users
  noted-Post Q R e none h w q r = r

  pub get_users-Triple :
      {P : Hw D → Type 0} {Q : List HwUser → Hw D → Type 0} {R : Hw D → Type 0} (e : End)
      → ((h : Hw D) (w : D.World) (users : List HwUser)
          → P h
          → Q users (record h { world = w; log = listed e users ∷ h.log }))
      → ((h : Hw D) (w : D.World) → P h → R (record h { world = w }))
      → Triple P (get_users D e) Q R
  unfolding get_users
  get_users-Triple {Q} {R} e k r = record {
    post = λ h p. noted-Post Q R e _ h _ (λ users. k h _ users p) (r h _ p);
  }

  -- A weaker end.
  weaken-Post :
      {A : Type 0} (S Q : A → Hw D → Type 0) (T R : Hw D → Type 0) (o : Option A × Hw D)
      → ((a : A) (h : Hw D) → S a h → Q a h)
      → ((h : Hw D) → T h → R h)
      → Post S T o
      → Post Q R o
  weaken-Post S Q T R (some a, h) q r p = q a h p
  weaken-Post S Q T R (none, h) q r p = r h p

  pub weaken :
      {A : Type 0} {P : Hw D → Type 0} {S Q : A → Hw D → Type 0} {T R : Hw D → Type 0} {m : M D A}
      → ((a : A) (h : Hw D) → S a h → Q a h)
      → ((h : Hw D) → T h → R h)
      → Triple P m S T
      → Triple P m Q R
  weaken {S} {Q} {T} {R} {m} q r t = record {
    post = λ h p. weaken-Post S Q T R (m h) q r (t.post h p);
  }

  -- A stronger condition before.
  pub weaken_before :
      {A : Type 0} {P P' : Hw D → Type 0} {Q : A → Hw D → Type 0} {R : Hw D → Type 0} {m : M D A}
      → ((h : Hw D) → P' h → P h)
      → Triple P m Q R
      → Triple P' m Q R
  weaken_before k t = record { post = λ h p. t.post h (k h p) }

  abbrev pub Anything : Hw D → Type 0
  Anything _ = Unit {0}

  Anything-Post : {A : Type 0} (o : Option A × Hw D) → Post (λ _. Anything) Anything o
  Anything-Post (some a, h) = tt
  Anything-Post (none, h) = tt

  pub anything : {A : Type 0} {P : Hw D → Type 0} (m : M D A) → Triple P m (λ _. Anything) Anything
  anything m = record { post = λ h _. Anything-Post (m h) }

  -- What is known before the run and says nothing of the readers.
  pub assume :
      {A X : Type 0} {m : M D A} {Q : A → Hw D → Type 0} {R : Hw D → Type 0}
      → (X → Triple Anything m Q R)
      → Triple (λ _. X) m Q R
  assume k = record { post = λ h x. (k x).post h tt }

  abbrev pub Caught :
      {A : Type 0} → (A → Hw D → Type 0) → (Hw D → Type 0) → Option A → Hw D → Type 0
  Caught S R (some a) h = S a h
  Caught S R none h = R h

  Caught-Post :
      {A : Type 0} (S : A → Hw D → Type 0) (R : Hw D → Type 0) (o : Option A × Hw D)
      → Post S R o
      → Caught S R o.0 o.1
  Caught-Post S R (some a, h) p = p
  Caught-Post S R (none, h) p = p

  pub attempt-Triple :
      {A : Type 0} {P : Hw D → Type 0} {S : A → Hw D → Type 0} {R T : Hw D → Type 0} {m : M D A}
      → Triple P m S R
      → Triple P (attempt m) (Caught S R) T
  unfolding attempt
  attempt-Triple {S} {R} {m} t = record { post = λ h p. Caught-Post S R (m h) (t.post h p) }
