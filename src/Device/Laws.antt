-- ===== src/Device/Laws.antt =====
-- Which device and which port the backend works on.
use workd.Prelude.{
  ℕ, zero, suc, ◌+◌, ◌%◌, ◌^◌, ◌≡◌, ◌<◌, refl, ◌≢◌, ap, ◌∙◌, Option, none, some, Bool, true, false,
  List, [], ◌∷◌, ◌++◌, All, map, arith, if◌then◌else◌,
}
use workd.Prelude.Outcome.{ok, fault, ◌>>=◌}
use workd.Device.{
  Port, Driver, Device, make_port, add_ports, open_device, make_device, make_devices, same_text,
  get_device,
}

abbrev pub IsDown : Port → Type 0
IsDown p = p.port_attr.is_active ≡ false

-- The port that a search for the last active one settles on, from `active` on.
pub data Last (active : Option Port) : List Port → Option Port → Type 0 where
  found :
      (before after : List Port) (p : Port)
      → p.port_attr.is_active ≡ true
      → All IsDown after
      → Last active (before ++ p ∷ after) (some p)
  all_down : {ps : List Port} → All IsDown ps → Last active ps active

cons_up :
    (active : Option Port) (p : Port) (ps : List Port) (result : Option Port)
    → p.port_attr.is_active ≡ true
    → Last (some p) ps result
    → Last active (p ∷ ps) result
cons_up active p _ _ up (found before after q h down) = found (p ∷ before) after q h down
cons_up active p ps _ up (all_down down) = found [] ps p up down

cons_down :
    (active : Option Port) (p : Port) (ps : List Port) (result : Option Port)
    → IsDown p
    → Last active ps result
    → Last active (p ∷ ps) result
cons_down active p _ _ is_down (found before after q h down) = found (p ∷ before) after q h down
cons_down active p ps _ is_down (all_down down) = all_down (is_down, down)

cons_port :
    (active : Option Port) (p : Port) (ps : List Port) (result : Option Port) (b : Bool)
    → p.port_attr.is_active ≡ b
    → Last (if b then some p else active) ps result
    → Last active (p ∷ ps) result
cons_port active p ps result true e h = cons_up active p ps result e h
cons_port active p ps result false e h = cons_down active p ps result e h

add_ports-Last :
    (d : Driver) (n i : ℕ) (active : Option Port)
    → Last active (add_ports d n i active).0 (add_ports d n i active).1
unfolding add_ports
add_ports-Last d zero i active = all_down tt
add_ports-Last d (suc n) i active =
    cons_port active (make_port d ((i + 1) % 256)) _ _ _ refl (add_ports-Last d n (i + 1) _)

byte_small : (a : ℕ) → a < 2 ^ 8 → a % 2 ^ 8 ≡ a
byte_small a h = omega arith

-- The numbers from `i + 1` on.
abbrev pub numbers : ℕ → ℕ → List ℕ
numbers i zero = []
numbers i (suc n) = (i + 1) ∷ numbers (i + 1) n

add_ports-numbers :
    (d : Driver) (n i : ℕ) (active : Option Port)
    → i + n < 2 ^ 8
    → (add_ports d n i active).0 ≡ map (make_port d) (numbers i n)
unfolding add_ports
add_ports-numbers d zero i active h = refl
add_ports-numbers d (suc n) i active h =
    rw (byte_small (i + 1) (omega arith))
      (ap (λ ps. make_port d (i + 1) ∷ ps) (add_ports-numbers d n (i + 1) _ (omega arith)))

-- A device has a port for each number from 1 to what the driver counts, up to 255 and in this
-- order, and its `active_port` is the last of them that is active; where none is, the member stays
-- unset.
pub open_device_lem :
    (d : Driver)
    → d.phys_port_cnt < 2 ^ 8
    → ((open_device d).ports ≡ map (make_port d) (numbers 0 d.phys_port_cnt))
      × Last none (open_device d).ports (open_device d).active_port
unfolding open_device
open_device_lem d h = rw (byte_small d.phys_port_cnt h) (
  add_ports-numbers d d.phys_port_cnt 0 none (omega arith),
  add_ports-Last d d.phys_port_cnt 0 none,
)

same_text-eq : (s t : List ℕ) → same_text s t ≡ true → s ≡ t
unfolding same_text
same_text-eq [] [] e = refl
same_text-eq [] (b ∷ t) e = ground arith
same_text-eq (a ∷ s) [] e = ground arith
same_text-eq (a ∷ s) (b ∷ t) e = ground (arith, same_text-eq s t)

same_text_self : (s : List ℕ) → same_text s s ≡ true
unfolding same_text
same_text_self [] = refl
same_text_self (a ∷ s) = ground (arith, same_text_self s)

-- Only the first device can be found: its name gives that device, and any other name, which may be
-- that of a later device, sends the search behind the array of which it looks at one element.
pub get_device-head :
    (r : Device) (rs : List Device) (device_name : List ℕ)
    → (device_name ≡ r.driver.name → get_device (r ∷ rs) device_name ≡ ok r)
      × (device_name ≢ r.driver.name → get_device (r ∷ rs) device_name ≡ fault)
unfolding get_device
get_device-head r rs device_name = (
  λ e. ground (arith, same_text_self device_name, e),
  λ ne. ground (arith, same_text-eq device_name r.driver.name, ne),
)

make_devices-open :
    (ds : List Driver) → All (λ d. d.opens ≡ true) ds → make_devices ds ≡ ok (map open_device ds)
unfolding make_devices make_device
make_devices-open [] h = refl
make_devices-open (d ∷ ds) h = rw (h.0, make_devices-open ds h.1, make_devices, make_device) refl

pub get_device-make_devices :
    (d : Driver) (ds : List Driver)
    → All (λ d. d.opens ≡ true) (d ∷ ds)
    → (make_devices (d ∷ ds) >>= λ l. get_device l d.name) ≡ ok (open_device d)
unfolding open_device
get_device-make_devices d ds h =
    ap (λ o. o >>= λ l. get_device l d.name) (make_devices-open (d ∷ ds) h)
    ∙ (get_device-head (open_device d) (map open_device ds) d.name).0 refl
