-- ===== src/Device.antt =====
-- classes Port, Device and DeviceList of rdma/ResourceManager.h. What the verbs library answers is
-- an argument; names are texts.
pub mod Laws
use workd.Prelude.{
  ℕ, zero, suc, ◌+◌, ◌%◌, ◌^◌, Option, none, some, Bool, true, false, ◌&&◌, List, [], ◌∷◌, ◌==◌,
  if◌then◌else◌,
}
use workd.Prelude.Outcome.{Outcome, ok, fault, ◌>>=◌}
use workd.Wire.Gid.{Gid}

-- `ibv_port_attr`, as far as the code reads it.
pub record PortAttr : Type 0 where
  pub is_active : Bool
  pub lid : ℕ

pub record Port : Type 0 where
  pub port_num : ℕ
  pub port_attr : PortAttr
  pub lid : ℕ
  pub gid : Gid

-- What the library says of a device, and whether it can be opened; where a query fails, the memory that it would have filled.
pub record Driver : Type 0 where
  pub name : List ℕ
  pub opens : Bool
  pub phys_port_cnt : ℕ
  pub max_srq_wr : ℕ
  pub max_cqe : ℕ
  pub max_qp_wr : ℕ
  pub query_port : ℕ → Option PortAttr
  pub query_gid : ℕ → Option Gid
  pub unset_attr : PortAttr
  pub unset_gid : Gid

abbrev or_unset {ℓ} : {A : Type ℓ} → Option A → A → A
or_unset (some a) b = a
or_unset none b = b

-- The constructor: a failed query is only logged.
unfoldable pub make_port : Driver → ℕ → Port
make_port d ipn =
    let attr = or_unset (d.query_port ipn) d.unset_attr in
    record {
      port_num = ipn;
      port_attr = attr;
      lid = attr.lid;
      gid = or_unset (d.query_gid ipn) d.unset_gid;
    }

-- `active_port` is unset where no port is active.
pub record Device : Type 0 where
  pub driver : Driver
  pub ports : List Port
  pub active_port : Option Port

-- The loop of the constructor, for `n` ports from `i` on; a port's number is a `uint8_t`.
unfoldable pub add_ports : Driver → ℕ → ℕ → Option Port → List Port × Option Port
add_ports d zero i active = ([], active)
add_ports d (suc n) i active =
    let p = make_port d ((i + 1) % 2 ^ 8) in
    let (ports, active') =
      add_ports d n (i + 1) (if p.port_attr.is_active then some p else active) in
    (p ∷ ports, active')

-- `port_cnt` is a `uint8_t`.
unfoldable pub open_device : Driver → Device
unfolding add_ports
open_device d =
    let (ports, active) = add_ports d (d.phys_port_cnt % 2 ^ 8) 0 none in
    record { driver = d; ports = ports; active_port = active }

-- A device that does not open is only logged, and queried through a null pointer.
pub make_device : Driver → Outcome Device
unfolding open_device
make_device d = if d.opens then ok (open_device d) else fault

-- Through an unset pointer these are undefined.
unfoldable pub get_lid : Device → Outcome ℕ
get_lid d = elim d.active_port [ none ↦ fault | some p ↦ ok p.lid ]

unfoldable pub get_gid : Device → Outcome Gid
get_gid d = elim d.active_port [ none ↦ fault | some p ↦ ok p.gid ]

-- DeviceList's constructor.
pub make_devices : List Driver → Outcome (List Device)
unfolding make_device
make_devices [] = ok []
make_devices (d ∷ ds) = do device ← make_device d; devices ← make_devices ds; ok (device ∷ devices)

-- strcmp
unfoldable pub same_text : List ℕ → List ℕ → Bool
same_text [] [] = true
same_text (a ∷ s) (b ∷ t) = a == b && same_text s t
same_text _ _ = false

-- DeviceList::get_device: `devices[0]` is read without a look at the number of devices, and `++r`
-- goes from the first device to the memory behind it, which holds no device.
pub get_device : List Device → List ℕ → Outcome Device
unfolding same_text
get_device [] device_name = fault
get_device (r ∷ rs) device_name = if same_text device_name r.driver.name then ok r else fault
