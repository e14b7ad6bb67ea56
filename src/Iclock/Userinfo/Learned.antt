-- ===== src/Iclock/Userinfo/Learned.antt =====
-- What the service knows after a pushed table of users.
use pumo_bio_metric.Prelude.{
  ◌≡◌, refl, ◌∙◌, ap, arith, ltb, Bool, true, false, ◌&&◌, Bool-cases, inl, inr, List, [], ◌∷◌, map,
  if◌then◌else◌, Option, none, some, update_all,
}
use pumo_bio_metric.Text.{Text, same, same_iff, strip}
use pumo_bio_metric.Dict
use pumo_bio_metric.Dict.{get-put}
use pumo_bio_metric.Iclock.{UserInfo, PunchRow, Iclock, Outside, save_user_cache}
use pumo_bio_metric.Iclock.Lines.{data_lines}
use pumo_bio_metric.Iclock.Userinfo.{
  Named, named_by, is_learned, is_of, learn, learn_lines, parse_userinfo,
}

-- The last line that names the user with this PIN.
abbrev pub or_later : Bool → Named → Option Named → Option Named
or_later b u (some v) = some v
or_later true u none = some u
or_later false u none = none

unfoldable pub last_named : Text → List Text → Option Named
last_named pin [] = none
last_named pin (line ∷ lines) =
    or_later (is_learned (named_by line) && same pin (named_by line).pin) (named_by line)
      (last_named pin lines)

abbrev pub info_or : Option UserInfo → Option Named → Option UserInfo
info_or old none = old
info_or old (some u) = some (record { name = some u.name; role = some u.role })

info_or_twice :
    (old : Option UserInfo) (b : Bool) (u : Named) (later : Option Named)
    → info_or (info_or old (or_later b u none)) later ≡ info_or old (or_later b u later)
info_or_twice old b u (some v) = refl
info_or_twice old true u none = refl
info_or_twice old false u none = refl

abbrev learn_if : Named → Iclock → Iclock
learn_if u s = if is_learned u then learn u s else s

same_swap : (p q : Text) → same p q ≡ same q p
same_swap p q = ground (arith, same_iff p q, same_iff q p)

users-learn_if :
    (u : Named) (pin : Text) (s : Iclock)
    → Dict.get (learn_if u s).users pin
      ≡ info_or (Dict.get s.users pin) (or_later (is_learned u && same pin u.pin) u none)
unfolding learn
users-learn_if u pin s = elim (Bool-cases (is_learned u)) [
  | inr f ↦ rw f refl
  | inl t ↦ elim (Bool-cases (same pin u.pin)) [
    | inl e ↦ rw (t, get-put, same_swap u.pin pin, e) refl
    | inr e ↦ rw (t, get-put, same_swap u.pin pin, e) refl
  ]
]

users-learn_lines :
    (pin : Text) (lines : List Text) (s : Iclock)
    → Dict.get (learn_lines lines s).1.users pin
      ≡ info_or (Dict.get s.users pin) (last_named pin lines)
unfolding learn_lines last_named
users-learn_lines pin [] s = refl
users-learn_lines pin (line ∷ lines) s =
    users-learn_lines pin lines (learn_if (named_by line) s)
    ∙ ap (λ o. info_or o (last_named pin lines)) (users-learn_if (named_by line) pin s)
    ∙ info_or_twice _ _ (named_by line) (last_named pin lines)

-- A punch with the name and role of the last line that names its user.
abbrev pub renamed : Option Named → PunchRow → PunchRow
renamed none p = p
renamed (some u) p = record p { user_name = u.name; user_role = u.role }

unfoldable pub renamed_by : List Text → PunchRow → PunchRow
renamed_by lines p = renamed (last_named (strip p.user_id) lines) p

abbrev renamed_if : Named → PunchRow → PunchRow
renamed_if u p = renamed (or_later (is_learned u && same (strip p.user_id) u.pin) u none) p

renamed_by_twice :
    (line : Text) (lines : List Text) (p : PunchRow)
    → renamed_by lines (renamed_if (named_by line) p) ≡ renamed_by (line ∷ lines) p
unfolding renamed_by last_named
renamed_by_twice line lines p =
    elim (Bool-cases (is_learned (named_by line) && same (strip p.user_id) (named_by line).pin)) [
      | inl t ↦ rw t (twice (last_named (strip p.user_id) lines))
      | inr f ↦ rw f (later (last_named (strip p.user_id) lines))
    ]
  where
    twice :
        (o : Option Named)
        → renamed o (renamed (some (named_by line)) p) ≡ renamed (or_later true (named_by line) o) p
    twice none = refl
    twice (some v) = refl

    later : (o : Option Named) → renamed o p ≡ renamed (or_later false (named_by line) o) p
    later none = refl
    later (some v) = refl

named_one :
    (u : Named) (p : PunchRow)
    → is_learned u ≡ true
    → (if is_of u.pin p then record p { user_name = u.name; user_role = u.role } else p)
      ≡ renamed_if u p
named_one u p t = elim (Bool-cases (same (strip p.user_id) u.pin)) [
  | inl e ↦ rw (t, e) refl
  | inr e ↦ rw (t, e) refl
]

map-learned :
    (u : Named) (ps : List PunchRow)
    → is_learned u ≡ true
    → update_all (is_of u.pin) (λ p. record p { user_name = u.name; user_role = u.role }) ps
      ≡ map (renamed_if u) ps
unfolding update_all
map-learned u [] t = refl
map-learned u (p ∷ ps) t = rw (map-learned u ps t, named_one u p t) refl

map-unlearned : (u : Named) (ps : List PunchRow) → is_learned u ≡ false → ps ≡ map (renamed_if u) ps
map-unlearned u [] f = refl
map-unlearned u (p ∷ ps) f = rw (← map-unlearned u ps f, f) refl

punches-learn_if : (u : Named) (s : Iclock) → (learn_if u s).punches ≡ map (renamed_if u) s.punches
unfolding learn
punches-learn_if u s = elim (Bool-cases (is_learned u)) [
  | inl t ↦ rw t (map-learned u s.punches t)
  | inr f ↦ rw f (map-unlearned u s.punches f)
]

map-renamed :
    (line : Text) (lines : List Text) (ps : List PunchRow)
    → map (renamed_by lines) (map (renamed_if (named_by line)) ps)
      ≡ map (renamed_by (line ∷ lines)) ps
map-renamed line lines [] = refl
map-renamed line lines (p ∷ ps) = rw (map-renamed line lines ps, renamed_by_twice) refl

map-renamed_nil : (ps : List PunchRow) → ps ≡ map (renamed_by []) ps
unfolding renamed_by last_named
map-renamed_nil [] = refl
map-renamed_nil (p ∷ ps) = ap (λ qs. p ∷ qs) (map-renamed_nil ps)

punches-learn_lines :
    (lines : List Text) (s : Iclock)
    → (learn_lines lines s).1.punches ≡ map (renamed_by lines) s.punches
unfolding learn_lines
punches-learn_lines [] s = map-renamed_nil s.punches
punches-learn_lines (line ∷ lines) s =
    punches-learn_lines lines (learn_if (named_by line) s)
    ∙ ap (map (renamed_by lines)) (punches-learn_if (named_by line) s)
    ∙ map-renamed line lines s.punches

save_if :
    (out : Outside) (b : Bool) (s : Iclock)
    → let s' = if b then save_user_cache out s else s in
      (s'.users ≡ s.users) × (s'.punches ≡ s.punches)
unfolding save_user_cache
save_if out b s = ground arith

-- After a pushed table of users, each PIN that a line names has the name and the role of the last
-- line that does so, every other PIN has the entry that it had, and every punch that is kept has the
-- name and role of the last line that names its user, or those that it had when no line does.
pub parse_userinfo-renamed_by :
    (out : Outside) (body pin : Text) (s : Iclock)
    → let s' = parse_userinfo out body s in
      (Dict.get s'.users pin ≡ info_or (Dict.get s.users pin) (last_named pin (data_lines body)))
      × (s'.punches ≡ map (renamed_by (data_lines body)) s.punches)
unfolding parse_userinfo
parse_userinfo-renamed_by out body pin s =
    let (n, s') = learn_lines (data_lines body) s in
    let (same_users, same_punches) = save_if out (ltb 0 n) s' in
    (
      ap (λ u. Dict.get u pin) same_users ∙ users-learn_lines pin (data_lines body) s,
      same_punches ∙ punches-learn_lines (data_lines body) s,
    )
