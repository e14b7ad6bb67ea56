-- ===== src/Iclock/Direct/Once.antt =====
-- Which punches of a reader the direct reading takes.
use pumo_bio_metric.Prelude.{
  ℕ, ◌≡◌, refl, ◌∙◌, ap, arith, Bool, true, false, not, ◌&&◌, ◌||◌, Bool-cases, inl, inr, List, [],
  ◌∷◌, any, map, if◌then◌else◌,
}
use pumo_bio_metric.Text.{Text, same_iff, same_refl}
use pumo_bio_metric.Hardware.{HwUser}
use pumo_bio_metric.Iclock.{Iclock, Outside}
use pumo_bio_metric.Iclock.History.{Iso, completed}
use pumo_bio_metric.Iclock.Direct.{
  Attendance, Key, same_key, row_key, record_key, is_known, take_record, take_records, discover,
  sync_punches,
}

-- The keys that are not known, each once, in their order.
unfoldable pub new_keys : List Key → List Key → List Key
new_keys known [] = []
new_keys known (k ∷ ks) =
    let rest = new_keys (if is_known k known then known else k ∷ known) ks in
    if is_known k known then rest else k ∷ rest

row_key-take_record :
    (iso : Iso) (out : Outside) (now : ℕ) (sn : Text) (r : Attendance) (s : Iclock)
    → row_key (take_record iso out now sn r s).0 ≡ record_key r
unfolding completed
row_key-take_record iso out now sn r s = refl

row_key-take_records :
    (iso : Iso) (out : Outside) (now : ℕ) (sn : Text) (keys : List Key) (rs : List Attendance)
    (s : Iclock)
    → map row_key (take_records iso out now sn keys rs s).0 ≡ new_keys keys (map record_key rs)
unfolding take_records new_keys completed
row_key-take_records iso out now sn keys [] s = refl
row_key-take_records iso out now sn keys (r ∷ rs) s =
    let s' = (take_record iso out now sn r s).1 in
    elim (Bool-cases (is_known (record_key r) keys)) [
      | inl e ↦ rw e (row_key-take_records iso out now sn keys rs s)
      | inr e ↦ rw e (
          ap (λ ks. record_key r ∷ ks)
            (row_key-take_records iso out now sn (record_key r ∷ keys) rs s'))
    ]

same_key_refl : (k : Key) → same_key k k ≡ true
same_key_refl (a, b) = rw (same_refl a, same_refl b) refl

-- No key stands twice, and none is among the known ones.
unfoldable pub all_new : List Key → List Key → Bool
all_new known [] = true
all_new known (k ∷ ks) = not (is_known k known) && all_new (k ∷ known) ks

new_keys-all_new : (known ks : List Key) → all_new known (new_keys known ks) ≡ true
unfolding new_keys all_new
new_keys-all_new known [] = refl
new_keys-all_new known (k ∷ ks) = elim (Bool-cases (is_known k known)) [
  | inl e ↦ rw e (new_keys-all_new known ks)
  | inr e ↦ rw (e, e) (new_keys-all_new (k ∷ known) ks)
]

same_key_eq : (q k : Key) → same_key q k ≡ true → q ≡ k
same_key_eq (a, b) (c, d) h =
    let first : a ≡ c = (same_iff a c).0 (ground (arith, h)) in
    let second : b ≡ d = (same_iff b d).0 (ground (arith, h)) in
    ap (λ x. (x, b)) first ∙ ap (λ y. (c, y)) second

is_known-same_key :
    (q k : Key) (known : List Key) → same_key q k ≡ true → is_known q known ≡ is_known k known
is_known-same_key q k known h = ap (λ x. is_known x known) (same_key_eq q k h)

-- Every key is known or new.
is_known-new_keys :
    (q : Key) (known ks : List Key)
    → (is_known q known || is_known q ks) ≡ true
    → (is_known q known || is_known q (new_keys known ks)) ≡ true
unfolding new_keys any
is_known-new_keys q known [] h = h
is_known-new_keys q known (k ∷ ks) h = elim (Bool-cases (is_known k known)) [
  | inl e ↦ rw e (is_known-new_keys q known ks (ground (arith, h, e, is_known-same_key q k known)))
  | inr e ↦ rw e (ground (arith, h, is_known-new_keys q (k ∷ known) ks))
]

or_true : (b : Bool) → (b || true) ≡ true
or_true true = refl
or_true false = refl

-- With the pair of PIN and time as the key of a punch: the rows that a direct reading hands to the
-- bridge have no key twice, and none that a punch has which is kept when the names have been taken
-- over; and each key of a punch of the reader is that of such a row or of such a kept punch.
pub sync_punches-all_new :
    (iso : Iso) (out : Outside) (now : ℕ) (sn : Text) (users : List HwUser)
    (records : List Attendance) (s : Iclock) (q : Key)
    → is_known q (map record_key records) ≡ true
    → let kept = map row_key (discover out users s).1.punches in
      let taken = map row_key (sync_punches iso out now sn users records s).0 in
      (all_new kept taken ≡ true) × ((is_known q kept || is_known q taken) ≡ true)
unfolding sync_punches
sync_punches-all_new iso out now sn users records s q h =
    let s' = (discover out users s).1 in
    let kept = map row_key s'.punches in
    rw (row_key-take_records iso out now sn kept records s') (
      new_keys-all_new kept (map record_key records),
      is_known-new_keys q kept (map record_key records) (rw h (or_true (is_known q kept))),
    )
