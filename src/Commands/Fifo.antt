-- ===== src/Commands/Fifo.antt =====
-- The queue against its specification: a queue of its own for each reader.
use pumo_bio_metric.Prelude.{
  ℕ, ◌+◌, ◌≡◌, refl, ap, ◌∙◌, true, false, List, [], ◌∷◌, ◌++◌, if◌then◌else◌, arith, Bool-cases,
  inl, inr,
}
use pumo_bio_metric.Text.{Text, codes, same, same_iff, is_empty}
use pumo_bio_metric.Dict.{get-put}
use pumo_bio_metric.Commands.{
  Commands, clean_sn, pending, command, queue_device_cmd, pop_command, next_for, next_command,
}

-- What reaches the service: a command for a reader, and a poll of a reader.
pub data Op : Type 0 where
  queue : Text → Text → Op
  poll : Text → Op

-- The answers to the polls of the reader `sn`, over a sequence of operations for all readers.
unfoldable pub answers : Text → List Op → Commands → List Text
answers sn [] s = []
answers sn (queue other body ∷ ops) s = answers sn ops (queue_device_cmd other body s).1
answers sn (poll other ∷ ops) s =
    let (answer, s') = next_command other s in
    let rest = answers sn ops s' in if same (clean_sn other) sn then answer ∷ rest else rest

-- A queue for one reader alone: the oldest command goes out first, and "OK" when there is none.
abbrev pub first : List Text → Text
first [] = codes "OK"
first (cmd ∷ _) = cmd

abbrev pub others : List Text → List Text
others [] = []
others (_ ∷ cmds) = cmds

unfoldable pub fifo : Text → List Op → ℕ → List Text → List Text
fifo sn [] n q = []
fifo sn (queue other body ∷ ops) n q =
    fifo sn ops (n + 1) (if same (clean_sn other) sn then q ++ command (n + 1) body ∷ [] else q)
fifo sn (poll other ∷ ops) n q =
    let rest = fifo sn ops n (if same (clean_sn other) sn then others q else q) in
    if same (clean_sn other) sn then first q ∷ rest else rest

-- Queueing adds one command to the queue of its reader and to no other.
pub pending-queue_device_cmd :
    (sn other body : Text) (s : Commands)
    → pending sn (queue_device_cmd other body s).1 ≡ (
        if same (clean_sn other) sn
        then pending sn s ++ command (s.counter + 1) body ∷ []
        else pending sn s)
unfolding queue_device_cmd
pending-queue_device_cmd sn other body s = elim (Bool-cases (same (clean_sn other) sn)) [
  | inl e ↦
      rw
        (
          get-put s.queue (clean_sn other) sn
              (pending (clean_sn other) s ++ command (s.counter + 1) body ∷ []),
          e,
        )
        (ap (λ x. pending x s ++ command (s.counter + 1) body ∷ [])
          ((same_iff (clean_sn other) sn).0 e))
  | inr e ↦
      rw
        (
          get-put s.queue (clean_sn other) sn
              (pending (clean_sn other) s ++ command (s.counter + 1) body ∷ []),
          e,
        )
        refl
]

pub counter-queue_device_cmd :
    (other body : Text) (s : Commands) → (queue_device_cmd other body s).1.counter ≡ s.counter + 1
unfolding queue_device_cmd
counter-queue_device_cmd other body s = refl

pending-same :
    (sn other : Text) (s : Commands) → same other sn ≡ true → pending other s ≡ pending sn s
pending-same sn other s e = ap (λ x. pending x s) ((same_iff other sn).0 e)

pop_command-pending :
    (sn other : Text) (q : List Text) (s : Commands)
    → pending other s ≡ q
    → pending sn (pop_command other q s).1
      ≡ (if same other sn then others (pending sn s) else pending sn s)
pop_command-pending sn other [] s h = elim (Bool-cases (same other sn)) [
  | inl e ↦ rw (e, ← pending-same sn other s e, h) refl
  | inr e ↦ rw e refl
]
pop_command-pending sn other (cmd ∷ cmds) s h = elim (Bool-cases (same other sn)) [
  | inl e ↦ rw (get-put s.queue other sn cmds, e, ← pending-same sn other s e, h) refl
  | inr e ↦ rw (get-put s.queue other sn cmds, e) refl
]

pop_command-counter :
    (other : Text) (q : List Text) (s : Commands) → (pop_command other q s).1.counter ≡ s.counter
pop_command-counter other [] s = refl
pop_command-counter other (cmd ∷ cmds) s = refl

pop_command-first :
    (other : Text) (q : List Text) (s : Commands) → (pop_command other q s).0 ≡ first q
pop_command-first other [] s = refl
pop_command-first other (cmd ∷ cmds) s = refl

-- A poll takes the oldest command of its reader and of no other.
next_for_lem :
    (sn clean : Text) (s : Commands)
    → is_empty sn ≡ false
    → ((next_for clean s).1.counter ≡ s.counter)
      × (pending sn (next_for clean s).1
          ≡ (if same clean sn then others (pending sn s) else pending sn s))
      × (same clean sn ≡ true → (next_for clean s).0 ≡ first (pending sn s))
unfolding same
next_for_lem [] [] s h = ground (arith, h)
next_for_lem (k ∷ ks) [] s h = (refl, refl, λ e. ground (arith, e))
next_for_lem sn (c ∷ cs) s h = (
  pop_command-counter (c ∷ cs) (pending (c ∷ cs) s) s,
  pop_command-pending sn (c ∷ cs) (pending (c ∷ cs) s) s refl,
  λ e. pop_command-first (c ∷ cs) (pending (c ∷ cs) s) s ∙ ap first (pending-same sn (c ∷ cs) s e),
)

-- For a serial number that is not empty: what the polls under any spelling that cleans to it are
-- answered, over any sequence of commands queued for any readers and of polls by any readers, is
-- what a first-in first-out queue for that reader alone would answer, if it starts with the
-- commands that wait under that serial number.
pub answers-fifo :
    (sn : Text) (ops : List Op) (s : Commands)
    → is_empty sn ≡ false
    → answers sn ops s ≡ fifo sn ops s.counter (pending sn s)
unfolding answers fifo next_command
answers-fifo sn [] s h = refl
answers-fifo sn (queue other body ∷ ops) s h =
    rw
      (
        answers-fifo sn ops (queue_device_cmd other body s).1 h,
        counter-queue_device_cmd other body s,
        pending-queue_device_cmd sn other body s,
      )
      refl
answers-fifo sn (poll other ∷ ops) s h =
    let (same_counter, left, handed) = next_for_lem sn (clean_sn other) s h in
    elim (Bool-cases (same (clean_sn other) sn)) [
      | inl e ↦
          rw
            (handed e, answers-fifo sn ops (next_for (clean_sn other) s).1 h, same_counter, left, e)
            refl
      | inr e ↦
          rw (e, answers-fifo sn ops (next_for (clean_sn other) s).1 h, same_counter, left, e) refl
    ]
