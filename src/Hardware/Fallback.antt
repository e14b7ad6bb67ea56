-- ===== src/Hardware/Fallback.antt =====
-- What the account functions leave in the queue of commands.
use mathlib.Core.List.{append-nil, append_assoc}
use pumo_bio_metric.Prelude.{
  ℕ, ◌+◌, ◌≡◌, refl, Bool, true, false, ◌&&◌, ◌||◌, List, [], ◌∷◌, ◌++◌, any, if◌then◌else◌, Option,
  none, some, Result, ok, err, Bool-cases, inl, inr, length, ltb,
}
use pumo_bio_metric.Text.{Text, same, strip, is_empty}
use pumo_bio_metric.Dict.{Dict}
use pumo_bio_metric.Device.{DeviceInfo, Resolved, resolve_device}
use pumo_bio_metric.Sim.{CreateRequest, override_ip}
use pumo_bio_metric.Commands.{Commands, clean_sn, pending, command, queue_device_cmd}
use pumo_bio_metric.Commands.Fifo.{pending-queue_device_cmd, counter-queue_device_cmd}
use pumo_bio_metric.Hardware.{
  HwUser, End, target, Command, Driver, Hw, M, ◌>>=◌, ◌>>◌, pure, note, attempt, run, connect,
  get_users, close, is_open,
}
use pumo_bio_metric.Hardware.Triples.{
  Post, Triple, Holds, >>=-Triple, pure-Triple, raise-Triple, note-Triple, attempt-Holds, run-Holds,
  get_users-Triple, quietly-Holds, connect-Holds,
}
use pumo_bio_metric.Hardware.Migrate.{user_has, all_fids}
use pumo_bio_metric.Hardware.Accounts.{
  AccountReply, AccountError, queue_all, update_command, delete_commands, or_queue_delete,
  or_queue_create, create_run, create_body, create_user, created_on, delete_run, delete_found,
  delete_body, deleted_on, wipe_fingers, try_raw, is_deleted, forget, create_device_user_real,
  delete_device_user_real,
}

-- The commands that go into the queue for these texts, from a counter on.
unfoldable pub numbered : ℕ → List Text → List Text
numbered n [] = []
numbered n (body ∷ bodies) = command (n + 1) body ∷ numbered (n + 1) bodies

pending-queue_all :
    (sn q : Text) (bodies : List Text) (s : Commands)
    → pending q (queue_all sn bodies s)
      ≡ (if same (clean_sn sn) q then pending q s ++ numbered s.counter bodies else pending q s)
unfolding queue_all numbered
pending-queue_all sn q [] s = elim (Bool-cases (same (clean_sn sn) q)) [
  | inl t ↦ rw (t, append-nil) refl
  | inr f ↦ rw f refl
]
pending-queue_all sn q (body ∷ bodies) s =
    let s' = (queue_device_cmd sn body s).1 in
    elim (Bool-cases (same (clean_sn sn) q)) [
      | inl t ↦
          rw
            (
              pending-queue_all sn q bodies s',
              pending-queue_device_cmd,
              counter-queue_device_cmd,
              t,
              append_assoc,
            )
            refl
      | inr f ↦ rw (pending-queue_all sn q bodies s', pending-queue_device_cmd, f) refl
    ]

-- The commands of a reader after a call of an account function, with the commands that the call
-- adds in its fallback.
abbrev pub after_fallback : Text → Text → Bool → List Text → Commands → List Text
after_fallback q sn queued bodies c =
    if queued && same (clean_sn sn) q then pending q c ++ numbered c.counter bodies else pending q c

abbrev pub was_queued : Result AccountError AccountReply → Bool
was_queued (ok r) = r.queued
was_queued (err e) = false

module _ (D : Driver) (c : Commands) where
  abbrev Kept : Hw D → Type 0
  Kept h = h.commands ≡ c

  run-Kept : (e : End) (k : Command) → Holds Kept (run D e k)
  run-Kept e k = run-Holds e k (λ h w p. p)

  get_users-Kept : (e : End) → Holds Kept (get_users D e)
  get_users-Kept e = get_users-Triple e (λ h w us p. p) (λ h w p. p)

  pure-Kept : {A : Type 0} (a : A) → Holds Kept (pure a)
  pure-Kept a = pure-Triple a (λ h p. p)

  connect-Kept : (e : End) (ip : Text) (port : ℕ) → Holds Kept (connect D e ip port)
  connect-Kept e ip port = connect-Holds e ip port (λ h w b p. p)

  session-Kept :
      {A : Type 0} {Q : A → Hw D → Type 0} (ip : Text) (port : ℕ) (k : Command)
      {f : List HwUser → M D A}
      → ((users : List HwUser) → Triple Kept (f users) Q Kept)
      → Triple Kept
          (connect D target ip port >> (run D target k >> (get_users D target >>= f)))
          Q
          Kept
  session-Kept ip port k t =
      >>=-Triple (connect-Kept _ _ _)
        (λ _. >>=-Triple (run-Kept _ _) (λ _. >>=-Triple (get_users-Kept _) t))

  -- A reply that does not come from the queue.
  abbrev Direct : AccountReply → Hw D → Type 0
  Direct r h = (h.commands ≡ c) × (r.queued ≡ false)

  abbrev DirectResult : Result AccountError AccountReply → Hw D → Type 0
  DirectResult o h = (h.commands ≡ c) × (was_queued o ≡ false)

  module _ (d : Resolved) where
    created_on-Kept :
        (pin : Text) (o : Option HwUser) → Triple Kept (created_on D d pin o) DirectResult Kept
    created_on-Kept pin none = raise-Triple (λ h p. p)
    created_on-Kept pin (some u) =
        >>=-Triple (note-Triple {Q = Kept} _ (λ h p. p)) (λ _. pure-Triple _ (λ h p. (p, refl)))

    create_user-Kept :
        (r : CreateRequest) (users : List HwUser)
        → Triple Kept (create_user D d r users) DirectResult Kept
    unfolding create_user
    create_user-Kept r users = elim (Bool-cases (any (user_has (strip r.user_id)) users)) [
      | inl t ↦ rw t (pure-Triple _ (λ h p. (p, refl)))
      | inr f ↦ rw f (
          >>=-Triple (run-Kept _ _) (λ _.
            >>=-Triple (run-Kept _ _)
              (λ _. >>=-Triple (get_users-Kept _) (λ seen. created_on-Kept _ _))))
    ]

    create_body-Kept : (r : CreateRequest) → Triple Kept (create_body D d r) DirectResult Kept
    unfolding create_body
    create_body-Kept r = session-Kept _ _ _ (create_user-Kept r)

    try_raw-Kept : (b : Bool) (pin : Text) (fid : ℕ) → Holds Kept (try_raw D d b pin fid)
    try_raw-Kept true pin fid = pure-Kept _
    try_raw-Kept false pin fid = attempt-Holds (quietly-Holds _ (λ h w p. p))

    wipe_fingers-Kept :
        (u : HwUser) (pin : Text) (fids : List ℕ) → Holds Kept (wipe_fingers D d u pin fids)
    unfolding wipe_fingers
    wipe_fingers-Kept u pin [] = pure-Kept _
    wipe_fingers-Kept u pin (fid ∷ fids) =
        >>=-Triple (attempt-Holds (quietly-Holds _ (λ h w p. p))) (λ first.
          >>=-Triple (try_raw-Kept (is_deleted first) pin fid)
            (λ second. >>=-Triple (wipe_fingers-Kept u pin fids) (λ n. pure-Kept _)))

    forget-Kept : (pin : Text) (only : Bool) → Holds Kept (forget D d pin only)
    forget-Kept pin true = pure-Kept _
    forget-Kept pin false = note-Triple _ (λ h p. p)

    deleted_on-Kept : (pin : Text) (b : Bool) → Triple Kept (deleted_on D d pin b) Direct Kept
    deleted_on-Kept pin true = raise-Triple (λ h p. p)
    deleted_on-Kept pin false =
        >>=-Triple (note-Triple {Q = Kept} _ (λ h p. p))
          (λ _. >>=-Triple (run-Kept _ _) (λ _. pure-Triple _ (λ h p. (p, refl))))

    delete_found-Kept :
        (pin : Text) (only : Bool) (o : Option HwUser)
        → Triple Kept (delete_found D d pin only o) Direct Kept
    unfolding delete_found
    delete_found-Kept pin only none =
        >>=-Triple (forget-Kept pin only)
          (λ _. >>=-Triple (run-Kept _ _) (λ _. pure-Triple _ (λ h p. (p, refl))))
    delete_found-Kept pin true (some u) = >>=-Triple (wipe_fingers-Kept u pin all_fids) (λ n.
        >>=-Triple (run-Kept _ _)
          (λ _. >>=-Triple (run-Kept _ _) (λ _. pure-Triple _ (λ h p. (p, refl)))))
    delete_found-Kept pin false (some u) = >>=-Triple (run-Kept _ _) (λ _.
        >>=-Triple (run-Kept _ _)
          (λ _. >>=-Triple (get_users-Kept _) (λ us. deleted_on-Kept pin _)))

    delete_body-Kept :
        (pin : Text) (only : Bool) → Triple Kept (delete_body D d pin only) Direct Kept
    unfolding delete_body
    delete_body-Kept pin only = session-Kept _ _ _ (λ users. delete_found-Kept pin only _)

    or_queue_delete-pending :
        (q pin : Text) (only : Bool) (o : Option AccountReply × Hw D)
        → Post Direct Kept o
        → pending q (or_queue_delete D d pin only o).1.commands
          ≡ after_fallback q d.sn
              (or_queue_delete D d pin only o).0.queued
              (delete_commands only pin)
              c
    unfolding or_queue_delete note
    or_queue_delete-pending q pin only (some r, h) (p, e) = rw (e, p) refl
    or_queue_delete-pending q pin true (none, h) p = rw (pending-queue_all, p) refl
    or_queue_delete-pending q pin false (none, h) p = rw (pending-queue_all, p) refl

    or_queue_create-pending :
        (q : Text) (r : CreateRequest) (o : Option (Result AccountError AccountReply) × Hw D)
        → Post DirectResult Kept o
        → pending q (or_queue_create D d r o).1.commands
          ≡ after_fallback q d.sn (was_queued (or_queue_create D d r o).0) (update_command r ∷ []) c
    or_queue_create-pending q r (some o, h) (p, e) = rw (e, p) refl
    or_queue_create-pending q r (none, h) p = rw (pending-queue_all, p) refl

close-commands : {D : Driver} (e : End) (h : Hw D) → (close D e h).1.commands ≡ h.commands
unfolding close ◌>>=◌ attempt run pure
close-commands e h = elim (Bool-cases (is_open e h.log)) [ inl t ↦ rw t refl | inr f ↦ rw f refl ]

create-pending :
    (D : Driver) (has_pyzk : Bool) (registry : Dict DeviceInfo) (r : CreateRequest) (q : Text)
    (h : Hw D)
    → pending q (create_device_user_real D has_pyzk registry r h).1.commands
      ≡ after_fallback q
          (override_ip r.ip_override (resolve_device registry r.port r.device_id)).sn
          (was_queued (create_device_user_real D has_pyzk registry r h).0)
          (update_command r ∷ [])
          h.commands
unfolding create_device_user_real create_run
create-pending D has_pyzk registry r q h =
    let d = override_ip r.ip_override (resolve_device registry r.port r.device_id) in
    elim (Bool-cases (is_empty (strip r.user_id) || is_empty (strip r.name))) [
      | inl t ↦ rw t refl
      | inr f ↦ rw f (elim (Bool-cases (ltb 24 (length (strip r.user_id)))) [
        | inl t ↦ rw t refl
        | inr f ↦ rw f (elim (Bool-cases has_pyzk) [
          | inl t ↦
              rw (t, close-commands)
                (or_queue_create-pending D h.commands d q r _
                  ((create_body-Kept D h.commands d r).post _ refl))
          | inr f ↦ rw f refl
        ])
      ])
    ]

delete-pending :
    (D : Driver) (has_pyzk : Bool) (registry : Dict DeviceInfo) (port : ℕ) (ip : Option Text)
    (device_id pin : Text) (only : Bool) (q : Text) (h : Hw D)
    → pending q
        (delete_device_user_real D has_pyzk registry port ip device_id pin only h).1.commands
      ≡ after_fallback q
          (override_ip ip (resolve_device registry port device_id)).sn
          (was_queued (delete_device_user_real D has_pyzk registry port ip device_id pin only h).0)
          (delete_commands only pin)
          h.commands
unfolding delete_device_user_real delete_run
delete-pending D true registry port ip device_id pin only q h =
    let d = override_ip ip (resolve_device registry port device_id) in
    rw close-commands (
      or_queue_delete-pending D h.commands d q pin only _
        ((delete_body-Kept D h.commands d pin only).post _ refl))
delete-pending D false registry port ip device_id pin only q h = refl

-- A creation or a deletion of a user on a hardware reader that reports that it was queued adds
-- exactly its fallback commands, in order and with the next numbers, behind the commands that wait
-- for that reader; the commands of every other reader, and all commands when the reply is not a
-- queued one, stay as they were.
pub account_calls-pending :
    (D : Driver) (has_pyzk only : Bool) (registry : Dict DeviceInfo) (port : ℕ) (ip : Option Text)
    (device_id pin : Text) (r : CreateRequest) (q : Text) (h : Hw D)
    → (pending q (create_device_user_real D has_pyzk registry r h).1.commands
        ≡ after_fallback q
            (override_ip r.ip_override (resolve_device registry r.port r.device_id)).sn
            (was_queued (create_device_user_real D has_pyzk registry r h).0)
            (update_command r ∷ [])
            h.commands)
      × (pending q
            (delete_device_user_real D has_pyzk registry port ip device_id pin only h).1.commands
          ≡ after_fallback q
              (override_ip ip (resolve_device registry port device_id)).sn
              (was_queued
                (delete_device_user_real D has_pyzk registry port ip device_id pin only h).0)
              (delete_commands only pin)
              h.commands)
account_calls-pending D has_pyzk only registry port ip device_id pin r q h = (
  create-pending D has_pyzk registry r q h,
  delete-pending D has_pyzk registry port ip device_id pin only q h,
)
