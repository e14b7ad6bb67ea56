-- ===== src/Iclock/Handlers/Routes.antt =====
-- What becomes of the punches that a reader pushes, and of its contact.
use pumo_bio_metric.Prelude.{
  ℕ, ◌≡◌, refl, sym, ◌∙◌, ap, Bool, true, false, Bool-cases, inl, inr, List, [], ◌∷◌, ◌++◌, map,
  if◌then◌else◌, Option, some,
}
use mathlib.Core.List.{append-nil, map-append}
use pumo_bio_metric.Text.{Text, codes, is_empty}
use pumo_bio_metric.Dict
use pumo_bio_metric.Dict.{get-put_self}
use pumo_bio_metric.Commands.{clean_sn}
use pumo_bio_metric.Iclock.{PunchRow, Iclock, Outside}
use pumo_bio_metric.Iclock.Lines.{data_lines}
use pumo_bio_metric.Iclock.Attlog.{parse_attlog, parse_attlog-data_lines}
use pumo_bio_metric.Iclock.History.{Iso, completed}
use pumo_bio_metric.Iclock.Handlers.{
  Request, Service, Now, Route, operations, users, punches, given, serial, mark_seen, ask_if,
  has_unknown, announce, take_punches, route, effective_table, handshake, routed, cdata, getrequest,
  acknowledge,
}

abbrev pub raws : List PunchRow → List Text
raws = map (λ (p : PunchRow). p.raw)

-- The lines that `ingest` is given: none when there is no line.
abbrev pub lines_given : List Text → List (List Text)
lines_given [] = []
lines_given (l ∷ ls) = (l ∷ ls) ∷ []

-- The lines of a body that the service takes for punches.
abbrev pub punch_lines : Text → Route → List Text
punch_lines body operations = []
punch_lines body users = []
punch_lines body punches = data_lines body

raws-announce :
    (iso : Iso) (out : Outside) (now : ℕ) (ps : List PunchRow) (s : Iclock)
    → raws (announce iso out now ps s).0 ≡ raws ps
unfolding announce completed
raws-announce iso out now [] s = refl
raws-announce iso out now (p ∷ ps) s = ap (λ ls. p.raw ∷ ls) (raws-announce iso out now ps _)

handed-ask_if : (b : Bool) (sn : Text) (s : Service) → (ask_if b sn s).handed ≡ s.handed
handed-ask_if true sn s = refl
handed-ask_if false sn s = refl

handed-take_punches :
    (iso : Iso) (out : Outside) (t : Now) (sn : Text) (ps : List PunchRow) (s : Service)
    → map raws (take_punches iso out t sn ps s).handed ≡ map raws s.handed ++ lines_given (raws ps)
unfolding take_punches
handed-take_punches iso out t sn [] s = sym (append-nil _)
handed-take_punches iso out t sn (p ∷ ps) s = rw (map-append, handed-ask_if, raws-announce) refl

handed-mark_seen :
    (t : Now) (sn : Text) (ip : Option Text) (force : Bool) (s : Service)
    → (mark_seen t sn ip force s).handed ≡ s.handed
unfolding mark_seen
handed-mark_seen t sn ip force s = elim (Bool-cases (is_empty sn)) [
  | inl e ↦ rw e refl
  | inr e ↦ rw e refl
]

handed-routed :
    (iso : Iso) (out : Outside) (t : Now) (sn body : Text) (k : Route) (s : Service)
    → map raws (routed iso out t sn body k s).handed
      ≡ map raws s.handed ++ lines_given (punch_lines body k)
handed-routed iso out t sn body operations s = sym (append-nil _)
handed-routed iso out t sn body users s = sym (append-nil _)
handed-routed iso out t sn body punches s =
    handed-take_punches iso out t sn (parse_attlog out t.text body sn s.iclock).0 _
    ∙ ap (λ ls. map raws s.handed ++ lines_given ls)
        (parse_attlog-data_lines out t.text body sn s.iclock).0

-- A handshake hands nothing to the bridge; a push that the service takes for punches, by its table
-- or else by its first line, hands it one batch whose rows carry each line of the body that is
-- neither blank nor a header, once and in order, if there is such a line, and a push of another
-- table hands it nothing; a push is always answered with "OK".
pub cdata-handed :
    (iso : Iso) (out : Outside) (t : Now) (r : Request) (s : Service)
    → (map raws (cdata iso out t r s).1.handed
        ≡ map raws s.handed
          ++ lines_given (if r.is_get then [] else punch_lines r.body (route (effective_table r))))
      × ((cdata iso out t r s).0 ≡ (if r.is_get then handshake (serial r) else codes "OK"))
unfolding cdata effective_table route handshake
cdata-handed iso out t r s = elim (Bool-cases (r.is_get)) [
  | inl e ↦ rw (e, handed-mark_seen, append-nil) (refl, refl)
  | inr e ↦ rw e (
    handed-routed iso out t (serial r) r.body (route (effective_table r)) _
        ∙ ap (λ x. map raws x ++ lines_given (punch_lines r.body (route (effective_table r))))
            (handed-mark_seen t (serial r) r.client_ip false s),
    refl,
  )
]

last_sync-mark_seen :
    (t : Now) (sn : Text) (ip : Option Text) (force : Bool) (s : Service)
    → is_empty sn ≡ false
    → Dict.get (mark_seen t sn ip force s).last_sync (clean_sn sn) ≡ some t.stamp
unfolding mark_seen
last_sync-mark_seen t sn ip force s h = rw (h, get-put_self) refl

last_sync-ask_if : (b : Bool) (sn : Text) (s : Service) → (ask_if b sn s).last_sync ≡ s.last_sync
last_sync-ask_if true sn s = refl
last_sync-ask_if false sn s = refl

last_sync-routed :
    (iso : Iso) (out : Outside) (t : Now) (sn body : Text) (k : Route) (s : Service)
    → (routed iso out t sn body k s).last_sync ≡ s.last_sync
unfolding take_punches
last_sync-routed iso out t sn body operations s = refl
last_sync-routed iso out t sn body users s = refl
last_sync-routed iso out t sn body punches s = after (parse_attlog out t.text body sn s.iclock).0 _
  where
    after :
        (ps : List PunchRow) (s : Service)
        → (take_punches iso out t sn ps s).last_sync ≡ s.last_sync
    after [] s = refl
    after (p ∷ ps) s = last_sync-ask_if (has_unknown s.iclock (p ∷ ps)) sn s

serial-is_empty : (r : Request) → is_empty (serial r) ≡ false
serial-is_empty r = elim (Bool-cases (is_empty (given r.sn))) [
  | inl e ↦ rw e refl
  | inr e ↦ rw (e, e) refl
]

-- Whatever a reader with a serial number calls, and whatever it sends, the service notes the time
-- of the contact under the serial number without surrounding blanks and in upper case.
pub routes-last_sync :
    (iso : Iso) (out : Outside) (t : Now) (r : Request) (s : Service)
    → is_empty (given r.sn) ≡ false
    → let sn = clean_sn (given r.sn) in
      (Dict.get (cdata iso out t r s).1.last_sync sn ≡ some t.stamp)
      × (Dict.get (getrequest t r s).1.last_sync sn ≡ some t.stamp)
      × (Dict.get (acknowledge t r s).1.last_sync sn ≡ some t.stamp)
unfolding cdata getrequest acknowledge
routes-last_sync iso out t r s h = (
  elim (Bool-cases (r.is_get)) [
    | inl e ↦ rw (e, h) (last_sync-mark_seen t (given r.sn) r.client_ip true s h)
    | inr e ↦ rw (e, h, last_sync-routed) (last_sync-mark_seen t (given r.sn) r.client_ip false s h)
  ],
  last_sync-mark_seen t (given r.sn) r.client_ip false s h,
  last_sync-mark_seen t (given r.sn) r.client_ip false s h,
)
