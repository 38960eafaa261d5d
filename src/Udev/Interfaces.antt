-- ===== src/Udev/Interfaces.antt =====
-- `UsbInterface::from_udev` of boardswarm/src/udev.rs on the bytes of the property, which are ASCII.
use boardswarm.Prelude.{
  ℕ, ◌+◌, ◌-◌, ◌*◌, ◌/◌, ◌%◌, ◌<◌, ◌≡◌, refl, ap, false, ◌&&◌, Option, none, some, List, [], ◌∷◌,
  ◌++◌, arith, Bytes, ltb, leb, nat_beq, if◌then◌else◌, All,
}

pub record UsbInterface : Type 0 where
  pub class : ℕ
  pub subclass : ℕ
  pub protocol : ℕ

abbrev pub colon : ℕ
colon = 58

abbrev pub plus : ℕ
plus = 43

abbrev in_front : ℕ → List Bytes → List Bytes
in_front c [] = (c ∷ []) ∷ []
in_front c (w ∷ ws) = (c ∷ w) ∷ ws

-- `split(':')`
unfoldable pub split_colons : Bytes → List Bytes
split_colons [] = [] ∷ []
split_colons (c ∷ cs) =
    let ws = split_colons cs in if nat_beq c colon then [] ∷ ws else in_front c ws

-- The value of a hexadecimal digit.
unfoldable pub hex_digit : ℕ → Option ℕ
hex_digit c =
    if leb 48 c && leb c 57
    then some (c - 48)
    else if leb 97 c && leb c 102
    then some (c - 87)
    else if leb 65 c && leb c 70
    then some (c - 55)
    else none

-- `u8::from_str_radix` on two bytes: a sign may stand for the first digit.
unfoldable pub from_hex : ℕ → ℕ → Option ℕ
unfolding hex_digit
from_hex a b = if nat_beq a plus then hex_digit b else elim (hex_digit a) [
  | none ↦ none
  | some high ↦ elim (hex_digit b) [ none ↦ none | some low ↦ some (16 * high + low) ]
]

-- One part: six bytes, three numbers.
unfoldable pub parse_interface : Bytes → Option UsbInterface
unfolding from_hex
parse_interface (a ∷ b ∷ c ∷ d ∷ e ∷ f ∷ []) = elim (from_hex a b) [
  | none ↦ none
  | some class ↦ elim (from_hex c d) [
    | none ↦ none
    | some subclass ↦ elim (from_hex e f) [
      | none ↦ none
      | some protocol ↦ some (record { class = class; subclass = subclass; protocol = protocol })
    ]
  ]
]
parse_interface _ = none

unfoldable pub parse_all : List Bytes → List UsbInterface
unfolding parse_interface
parse_all [] = []
parse_all (w ∷ ws) =
    let rest = parse_all ws in elim (parse_interface w) [ none ↦ rest | some i ↦ i ∷ rest ]

unfoldable pub from_udev : Bytes → List UsbInterface
unfolding split_colons parse_all
from_udev property = parse_all (split_colons property)

-- How udev writes the property: two lower-case digits for each number, and colons around.
abbrev pub digit : ℕ → ℕ
digit n = if ltb n 10 then 48 + n else 87 + n

unfoldable pub six_digits : UsbInterface → Bytes
six_digits i =
    digit (i.class / 16)
    ∷ digit (i.class % 16)
    ∷ digit (i.subclass / 16)
    ∷ digit (i.subclass % 16)
    ∷ digit (i.protocol / 16)
    ∷ digit (i.protocol % 16)
    ∷ []

unfoldable pub after_colon : List UsbInterface → Bytes
after_colon [] = []
after_colon (i ∷ is) = six_digits i ++ colon ∷ after_colon is

abbrev pub written : List UsbInterface → Bytes
written is = colon ∷ after_colon is

-- The numbers of an interface are bytes.
abbrev pub IsByteSized : UsbInterface → Type 0
IsByteSized i = (i.class < 256) × (i.subclass < 256) × (i.protocol < 256)

hex_digit-digit : (n : ℕ) → n < 16 → hex_digit (digit n) ≡ some n
unfolding hex_digit
hex_digit-digit n h = ground arith

from_hex-digit : (n : ℕ) → n < 256 → from_hex (digit (n / 16)) (digit (n % 16)) ≡ some n
unfolding from_hex
from_hex-digit n h = ground (arith, hex_digit-digit (n / 16), hex_digit-digit (n % 16))

parse_interface-six_digits :
    (i : UsbInterface) → IsByteSized i → parse_interface (six_digits i) ≡ some i
unfolding parse_interface six_digits
parse_interface-six_digits i h = rw (
  parse_interface,
  from_hex-digit i.class h.0,
  from_hex-digit i.subclass h.1,
  from_hex-digit i.protocol h.2,
)

abbrev NoColon : ℕ → Type 0
NoColon c = nat_beq c colon ≡ false

split_colons-word :
    (w rest : Bytes) → All NoColon w → split_colons (w ++ colon ∷ rest) ≡ w ∷ split_colons rest
unfolding split_colons
split_colons-word [] rest h = refl
split_colons-word (c ∷ w) rest h = rw (h.0, split_colons, split_colons-word w rest h.1)

digit-NoColon : (n : ℕ) → NoColon (digit n)
digit-NoColon n = ground arith

six_digits-NoColon : (i : UsbInterface) → All NoColon (six_digits i)
unfolding six_digits
six_digits-NoColon i = (
  digit-NoColon (i.class / 16),
  (
    digit-NoColon (i.class % 16),
    (
      digit-NoColon (i.subclass / 16),
      (
        digit-NoColon (i.subclass % 16),
        (digit-NoColon (i.protocol / 16), (digit-NoColon (i.protocol % 16), tt)),
      ),
    ),
  ),
)

parse_all-after_colon :
    (is : List UsbInterface) → All IsByteSized is → parse_all (split_colons (after_colon is)) ≡ is
unfolding after_colon parse_all
parse_all-after_colon [] h = unfold split_colons in refl
parse_all-after_colon (i ∷ is) h =
    rw (split_colons-word (six_digits i) (after_colon is) (six_digits-NoColon i)) (
      rw (parse_interface-six_digits i h.0, parse_all)
        (ap (λ r. i ∷ r) (parse_all-after_colon is h.1)))

-- What udev writes for a list of interfaces, whose numbers are bytes, is read back as that list.
pub from_udev-written : (is : List UsbInterface) → All IsByteSized is → from_udev (written is) ≡ is
unfolding from_udev split_colons
from_udev-written is h = parse_all-after_colon is h
