-- ===== src/Device.antt =====
-- The device registry of core/device_migration.py and `resolve_device`.
pub mod Resolve
use pumo_bio_metric.Prelude.{
  ℕ, ◌+◌, ◌-◌, Bool, true, false, not, ◌&&◌, ◌||◌, List, [], ◌∷◌, ◌++◌, leb, if◌then◌else◌, Option,
  none, some, any, map,
}
use pumo_bio_metric.Text.{Text, codes, same, strip, lower, has_code}
use pumo_bio_metric.Dict
use pumo_bio_metric.Dict.{Dict}

-- The metadata of a reader. Every entry that the program writes has `sn` and `ip`; an entry of
-- device_registry.json may lack `port` or `name`.
pub record DeviceInfo : Type 0 where
  pub sn : Text
  pub ip : Text
  pub port : Option ℕ
  pub name : Option Text

-- What `resolve_device` returns: `setdefault` has filled in the port.
pub record Resolved : Type 0 where
  pub sn : Text
  pub ip : Text
  pub port : ℕ
  pub name : Option Text

abbrev entry : Text → Text → Text → Text × DeviceInfo
entry sn ip name = (sn, record { sn = sn; ip = ip; port = some 4370; name = some name })

abbrev pub default_registry : Dict DeviceInfo
default_registry =
    entry (codes "NFZ8254900401") (codes "192.168.0.210")
      (codes "eSSL SilkBio-101TC (NFZ8254900401)")
    ∷ entry (codes "NFZ8242802542") (codes "192.168.0.154") (codes "eSSL x 2008 (NFZ8242802542)")
    ∷ entry (codes "UFZ9876543210") (codes "192.168.0.154") (codes "eSSL uFace 202 (UFZ9876543210)")
    ∷ entry (codes "ZK1") (codes "192.168.1.209") (codes "eSSL Terminal (ZK1)")
    ∷ []

-- `get_registered_devices`, with `none` where device_registry.json is absent or does not parse
unfoldable pub get_registered_devices : Option (Dict DeviceInfo) → Dict DeviceInfo
unfolding Dict.update
get_registered_devices none = default_registry
get_registered_devices (some saved) = Dict.update default_registry saved

-- The two objects of the simulator, under the names that hold them: five keys of one dict are two
-- objects.
pub data SimRef : Type 0 where
  sim_source sim_target : SimRef

abbrev pub simulated_devices : Dict SimRef
simulated_devices =
    (codes "NFZ8254900401", sim_source)
    ∷ (codes "192.168.0.210", sim_source)
    ∷ (codes "192.168.1.209", sim_source)
    ∷ (codes "UFZ9876543210", sim_target)
    ∷ (codes "NFZ8242802542", sim_target)
    ∷ (codes "192.168.0.154", sim_target)
    ∷ (codes "192.168.1.210", sim_target)
    ∷ []

-- The fields of `_SIM_SOURCE` and `_SIM_TARGET` that nothing assigns to.
abbrev pub sim_info : SimRef → DeviceInfo
sim_info sim_source = record {
  sn = codes "NFZ8254900401";
  ip = codes "192.168.0.210";
  port = some 4370;
  name = some (codes "eSSL SilkBio-101TC (NFZ8254900401)");
}
sim_info sim_target = record {
  sn = codes "UFZ9876543210";
  ip = codes "192.168.0.154";
  port = some 4370;
  name = some (codes "eSSL uFace 202 (Floor 2)");
}

-- `info.setdefault("port", default_port)`
abbrev pub set_default : ℕ → DeviceInfo → Resolved
set_default default_port info = record {
  sn = info.sn;
  ip = info.ip;
  port = elim info.port [ some p ↦ p | none ↦ default_port ];
  name = info.name;
}

-- The second loop: the serial number in any case.
unfoldable pub by_serial : Text → Dict DeviceInfo → Option DeviceInfo
unfolding lower
by_serial id [] = none
by_serial id ((k, v) ∷ d) = if same (lower k) (lower id) then some v else by_serial id d

-- The third loop: the IP address.
unfoldable pub by_ip : Text → Dict DeviceInfo → Option DeviceInfo
by_ip id [] = none
by_ip id ((k, v) ∷ d) = if same v.ip id then some v else by_ip id d

unfoldable pub is_alpha : ℕ → Bool
is_alpha c = leb b'a' c && leb c b'z' || (leb b'A' c && leb c b'Z')

-- `"." in clean_id and not any(c.isalpha() for c in clean_id)`
unfoldable pub looks_like_ip : Text → Bool
unfolding is_alpha any has_code
looks_like_ip id = has_code b'.' id && not (any is_alpha id)

-- The last step: an identifier that nobody knows.
unfoldable pub standalone : ℕ → Text → Resolved
unfolding looks_like_ip
standalone default_port id =
    if looks_like_ip id
    then record {
      sn = codes "DEV-" ++ id;
      ip = id;
      port = default_port;
      name = some (codes "Device " ++ id);
    }
    else record { sn = id; ip = id; port = default_port; name = some (codes "Device " ++ id) }

abbrev pub first_some {ℓ} : {A : Type ℓ} → Option A → Option A → Option A
first_some (some a) _ = some a
first_some none o = o

-- Steps 1 to 3: what the registry knows under a stripped identifier.
unfoldable pub registered : Dict DeviceInfo → Text → Option DeviceInfo
registered registry id =
    first_some (Dict.get registry id) (first_some (by_serial id registry) (by_ip id registry))

-- Steps 4 and 5.
abbrev pub resolved : ℕ → Text → Option DeviceInfo → Option SimRef → Resolved
resolved default_port id (some info) _ = set_default default_port info
resolved default_port id none (some dev) = set_default default_port (sim_info dev)
resolved default_port id none none = standalone default_port id

-- `resolve_device`
unfoldable pub resolve_device : Dict DeviceInfo → ℕ → Text → Resolved
resolve_device registry default_port identifier =
    let id = strip identifier in
    resolved default_port id (registered registry id) (Dict.get simulated_devices id)
