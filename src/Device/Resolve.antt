-- ===== src/Device/Resolve.antt =====
-- What `resolve_device` makes of the serial number that it returned: `run_migration` resolves every
-- reader once itself and once more in the migration of each user.
use pumo_bio_metric.Prelude.{ℕ, ◌≡◌, refl, true, false, ◌++◌, arith, none, some}
use pumo_bio_metric.Text.{Text, codes, same, strip, lstrip, rstrip}
use pumo_bio_metric.Dict
use pumo_bio_metric.Dict.{Dict}
use pumo_bio_metric.Device.{
  DeviceInfo, simulated_devices, registered, looks_like_ip, standalone, resolve_device,
}

-- Where the registry knows the identifier and files the reader under its own serial number, the
-- second resolution gives the same reader.
pub resolve_device_twice :
    (registry : Dict DeviceInfo) (port : ℕ) (id : Text) (info : DeviceInfo)
    → registered registry (strip id) ≡ some info
    → Dict.get registry info.sn ≡ some info
    → strip info.sn ≡ info.sn
    → resolve_device registry port (resolve_device registry port id).sn
      ≡ resolve_device registry port id
unfolding resolve_device registered
resolve_device_twice registry port id info h k t = rw (h, t, k) refl

abbrev pub dev_prefix : Text → Text
dev_prefix id = codes "DEV-" ++ id

lstrip-dev_prefix : (id : Text) → lstrip (dev_prefix id) ≡ dev_prefix id
unfolding lstrip
lstrip-dev_prefix id = refl

rstrip-dev_prefix : (id : Text) → rstrip id ≡ id → rstrip (dev_prefix id) ≡ dev_prefix id
unfolding rstrip
rstrip-dev_prefix id h = rw h (ground arith)

strip-dev_prefix : (id : Text) → rstrip id ≡ id → strip (dev_prefix id) ≡ dev_prefix id
unfolding strip
strip-dev_prefix id h = rw (lstrip-dev_prefix id) (rstrip-dev_prefix id h)

looks_like_ip-dev_prefix : (id : Text) → looks_like_ip (dev_prefix id) ≡ false
unfolding looks_like_ip
looks_like_ip-dev_prefix id = ground arith

simulated-dev_prefix : (id : Text) → Dict.get simulated_devices (dev_prefix id) ≡ none
unfolding Dict.get same
simulated-dev_prefix id = refl

-- An IP address that nobody registered resolves to itself the first time. The serial number made
-- up for it, resolved in turn, loses the address: it becomes the made-up serial number.
pub resolve_device_twice_loses_ip :
    (registry : Dict DeviceInfo) (port : ℕ) (id : Text)
    → strip id ≡ id
    → rstrip id ≡ id
    → looks_like_ip id ≡ true
    → registered registry id ≡ none
    → Dict.get simulated_devices id ≡ none
    → registered registry (dev_prefix id) ≡ none
    → ((resolve_device registry port id).ip ≡ id)
      × ((resolve_device registry port (resolve_device registry port id).sn).ip ≡ dev_prefix id)
unfolding resolve_device standalone
resolve_device_twice_loses_ip registry port id st rst ip unknown unsim unknown' =
    rw
      (
        st,
        unknown,
        unsim,
        ip,
        strip-dev_prefix id rst,
        unknown',
        simulated-dev_prefix id,
        looks_like_ip-dev_prefix id,
      )
      (refl, refl)
