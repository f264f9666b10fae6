-- ===== src/Debug/Devices/Laws.antt =====
-- What open_server and get_device give.
use mathlib.Core.Path.{subst}
use workd.Prelude.{
  ℕ, ◌≡◌, refl, sym, ap, ◌⊎◌, inl, inr, Option, none, some, Option-cases, Bool, true, false,
  Bool-cases, List, [], ◌∷◌, ◌++◌, All, arith,
}
use workd.Prelude.Int.{ℤ, pos, minus_one}
use workd.Prelude.Outcome.{ok, fault}
use workd.Debug.Devices.{
  Address, close_socket, try_addresses, open_server, Listed, has_layer, find_layer, get_device,
}

-- An address for which no socket is given, or to which it cannot be bound.
abbrev pub Unusable : Address → Type 0
Unusable t = (t.socket ≡ none) ⊎ (t.binds ≡ false)

-- Either `r` is the socket of the first address of the list that can be bound, and that is the only
-- one that is open besides those from before, or no address can be and none is.
abbrev pub Owns : List Address → List ℕ → ℤ × List ℕ → Type 0
Owns ts ss r =
    ((front : List Address) × (t : Address) × (back : List Address) × (fd : ℕ) × (ts
        ≡ front ++ t ∷ back)
      × All Unusable front
      × (t.socket ≡ some fd)
      × (t.binds ≡ true)
      × (r ≡ (pos fd, fd ∷ ss)))
    ⊎ (All Unusable ts × (r ≡ (minus_one, ss)))

-- The addresses that are tried: none where there is no text for the port or no list.
abbrev pub tried : Bool → Option (List Address) → List Address
tried false addresses = []
tried true none = []
tried true (some ts) = ts

behind :
    (t : Address) (ts : List Address) (ss : List ℕ) (r : ℤ × List ℕ)
    → Unusable t
    → Owns ts ss r
    → Owns (t ∷ ts) ss r
behind t ts ss r h (inl (front, u, back, fd, e, all, s, b, f)) =
    inl (t ∷ front, u, back, fd, ap (λ l. t ∷ l) e, (h, all), s, b, f)
behind t ts ss r h (inr (all, f)) = inr ((h, all), f)

close_socket-head : (fd : ℕ) (ss : List ℕ) → close_socket fd (fd ∷ ss) ≡ ss
unfolding close_socket
close_socket-head fd ss = ground arith

try_one :
    (t : Address) (fd : ℕ) (ts : List Address) (ss : List ℕ)
    → t.socket ≡ some fd
    → (t.binds ≡ true → try_addresses (t ∷ ts) ss ≡ (pos fd, fd ∷ ss))
      × (t.binds ≡ false → try_addresses (t ∷ ts) ss ≡ try_addresses ts ss)
unfolding try_addresses
try_one t fd ts ss e = (
  λ b. rw (e, b, try_addresses) refl,
  λ b. rw (e, b, close_socket-head fd ss, try_addresses) refl,
)

try_none :
    (t : Address) (ts : List Address) (ss : List ℕ)
    → t.socket ≡ none
    → try_addresses (t ∷ ts) ss ≡ try_addresses ts ss
unfolding try_addresses
try_none t ts ss e = rw (e, try_addresses) refl

try_addresses-Owns : (ts : List Address) (ss : List ℕ) → Owns ts ss (try_addresses ts ss)
unfolding try_addresses
try_addresses-Owns [] ss = inr (tt, refl)
try_addresses-Owns (t ∷ ts) ss = elim (Option-cases t.socket) [
  | inl e ↦
      subst (Owns (t ∷ ts) ss) (sym (try_none t ts ss e))
        (behind t ts ss (try_addresses ts ss) (inl e) (try_addresses-Owns ts ss))
  | inr (fd, e) ↦ elim (Bool-cases t.binds) [
    | inl b ↦ inl ([], t, ts, fd, refl, tt, e, b, (try_one t fd ts ss e).0 b)
    | inr b ↦
        subst (Owns (t ∷ ts) ss) (sym ((try_one t fd ts ss e).1 b))
          (behind t ts ss (try_addresses ts ss) (inr b) (try_addresses-Owns ts ss))
  ]
]

-- `open_server` returns the socket of the first address of the list for which one is given and can
-- be bound, with every other one that it opened closed again; where there is no such address, no
-- list or no text for the port, it returns -1 with all of them closed.
pub open_server-Owns :
    (prints : Bool) (addresses : Option (List Address)) (ss : List ℕ)
    → Owns (tried prints addresses) ss (open_server prints addresses ss)
unfolding open_server
open_server-Owns false addresses ss = inr (tt, refl)
open_server-Owns true none ss = inr (tt, refl)
open_server-Owns true (some ts) ss = try_addresses-Owns ts ss

-- A device in front of which only devices of other layers stand is found; where no device has the
-- layer the function ends with no return.
pub get_device_lem :
    (name : List ℕ) (ds rest : List Listed)
    → All (λ d. (d.opens ≡ true) × (has_layer name d ≡ false)) ds
    → ((d : Listed)
        → d.opens ≡ true
        → has_layer name d ≡ true
        → get_device (some (ds ++ d ∷ rest)) name ≡ ok d.name)
      × (get_device (some ds) name ≡ fault)
unfolding get_device find_layer
get_device_lem name [] rest h = (λ d o l. rw (o, l, find_layer) refl, refl)
get_device_lem name (e ∷ ds) rest h =
    let (found, missed) = get_device_lem name ds rest h.1 in
    (λ d o l. rw (h.0.0, h.0.1, find_layer) (found d o l), rw (h.0.0, h.0.1, find_layer) missed)
