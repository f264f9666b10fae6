-- ===== src/Text.antt =====
-- What the code uses of C's formatted text: %0<w>x and %0<w>lu of sprintf, %x and %lu of sscanf. A
-- text is the list of its bytes. The conversions of sscanf are modelled from the first digit
-- on: signs, leading white space and a prefix 0x are not, which sprintf prints none of here.
pub mod Numbers
pub mod Fields
use workd.Prelude.{
  ℕ, zero, suc, ◌+◌, ◌-◌, ◌*◌, ◌/◌, ◌%◌, Option, none, some, Bool, true, false, ◌&&◌, ◌||◌, List,
  [], ◌∷◌, ◌++◌, ◌^◌, ◌==◌, ltb, leb, if◌then◌else◌,
}

-- The digits are b'0' to b'9' and b'a' to b'f'.
pub digit : ℕ → ℕ
digit d = if ltb d 10 then 48 + d else 87 + d

-- The value of a digit of the base; sscanf takes b'A' to b'F' too.
pub value : ℕ → ℕ → Option ℕ
value base c =
    if leb 48 c && leb c 57
    then some (c - 48)
    else if ltb 10 base && (leb 97 c && leb c 102)
    then some (c - 87)
    else if ltb 10 base && (leb 65 c && leb c 70)
    then some (c - 55)
    else none

-- The `w` low digits, most significant first.
pub fixed : ℕ → ℕ → ℕ → List ℕ
fixed base zero x = []
fixed base (suc w) x = fixed base w (x / base) ++ digit (x % base) ∷ []

-- How many digits a number has, at least `w`, within `fuel` more.
pub width : ℕ → ℕ → ℕ → ℕ → ℕ
width zero base w x = w
width (suc fuel) base w x = elim (ltb x (base ^ w)) [ true ↦ w | false ↦ width fuel base (suc w) x ]

-- %0<w>x and %0<w>lu: at least `w` digits, more for a larger number. 64 more are enough for 64
-- bits.
pub print : ℕ → ℕ → ℕ → List ℕ
unfolding width
print base w x = fixed base (width 64 base w x) x

-- The digits at the front, and what follows them. `limit` is the field width of the conversion.
pub scan_digits : ℕ → ℕ → ℕ → List ℕ → ℕ × List ℕ
scan_digits base zero acc s = (acc, s)
scan_digits base (suc limit) acc [] = (acc, [])
scan_digits base (suc limit) acc (c ∷ s) = elim (value base c) [
  | none ↦ (acc, c ∷ s)
  | some d ↦ scan_digits base limit (acc * base + d) s
]

-- A conversion fails where no digit stands.
unfoldable pub scan : ℕ → ℕ → List ℕ → Option (ℕ × List ℕ)
scan base limit [] = none
scan base limit (c ∷ s) = elim (value base c) [
  | none ↦ none
  | some d ↦ some (scan_digits base limit 0 (c ∷ s))
]

-- A literal b':' of a format.
pub colon : List ℕ → Option (List ℕ)
colon [] = none
colon (c ∷ s) = if c == 58 then some s else none

-- A C string in memory: the bytes in front of the NUL, if there is one.
unfoldable pub string_at : List ℕ → Option (List ℕ)
string_at [] = none
string_at (c ∷ s) =
    if c == 0 then some [] else elim (string_at s) [ none ↦ none | some t ↦ some (c ∷ t) ]

-- isspace
pub is_space : ℕ → Bool
is_space c = c == 32 || leb 9 c && leb c 13

-- %s, from the first byte that is no white space on.
pub word : List ℕ → List ℕ
word [] = []
word (c ∷ s) = if is_space c then [] else c ∷ word s
