-- ===== src/Metrics/Cidr.antt =====
-- src/modules/metrics/domain/cidr.util.ts: whether an address is in a network, from the bytes of both
-- on. `normalize`, which makes the bytes, is an input, and so is what `Number` gives for the prefix;
-- a fraction is left out.
pub mod Prefixes
use armstrong_bot.Prelude.{
  ℕ, suc, zero, ◌+◌, ◌*◌, ◌-◌, ◌/◌, ◌%◌, ◌^◌, Bool, true, false, ◌&&◌, not, List, [], ◌∷◌, Option,
  none, some, if◌then◌else◌, eqb, length, min,
}
use armstrong_bot.Prelude.Int.{ℤ, pos, negsuc}

-- What `Number` gives: `NaN`, or an integer.
pub data Number : Type 0 where
  not_a_number : Number
  integer : ℤ → Number

-- `&` of two bytes
unfoldable pub and_bytes : ℕ → ℕ → ℕ
and_bytes x m =
    128 * ((x / 128 % 2) * (m / 128 % 2))
    + 64 * ((x / 64 % 2) * (m / 64 % 2))
    + 32 * ((x / 32 % 2) * (m / 32 % 2))
    + 16 * ((x / 16 % 2) * (m / 16 % 2))
    + 8 * ((x / 8 % 2) * (m / 8 % 2))
    + 4 * ((x / 4 % 2) * (m / 4 % 2))
    + 2 * ((x / 2 % 2) * (m / 2 % 2))
    + (x % 2) * (m % 2)

-- `take === 0 ? 0 : (0xff << (8 - take)) & 0xff`
abbrev pub mask_of : ℕ → ℕ
mask_of zero = 0
mask_of (suc t) = and_bytes (255 * 2 ^ (7 - t)) 255

-- One round of the loop of `sameNetwork`.
abbrev pub same_byte : ℕ → ℕ → ℕ → Bool
same_byte x y bits_to_take =
    let mask = mask_of bits_to_take in eqb (and_bytes x mask) (and_bytes y mask)

-- `bitsLeft > 0`, which `NaN` is not.
abbrev pub is_positive : Number → Bool
is_positive not_a_number = false
is_positive (integer (negsuc n)) = false
is_positive (integer (pos zero)) = false
is_positive (integer (pos (suc n))) = true

-- `Math.min(8, bitsLeft)`, for bits that are positive.
abbrev pub bits_taken : Number → ℕ
bits_taken not_a_number = 0
bits_taken (integer (negsuc n)) = 0
bits_taken (integer (pos n)) = min 8 n

-- `bitsLeft - take`, where no more are taken than are left.
abbrev pub bits_after : Number → ℕ → Number
bits_after not_a_number k = not_a_number
bits_after (integer (negsuc n)) k = integer (negsuc (n + k))
bits_after (integer (pos n)) k = integer (pos (n - k))

-- `b[i]`, of which `&` makes 0 where it is not there.
abbrev pub next_byte : List ℕ → ℕ
next_byte [] = 0
next_byte (y ∷ b) = y

abbrev pub later_bytes : List ℕ → List ℕ
later_bytes [] = []
later_bytes (y ∷ b) = b

-- `sameNetwork`: the loop goes on while bytes and bits are left.
unfoldable pub same_network : List ℕ → List ℕ → Number → Bool
unfolding and_bytes
same_network [] b bits_left = true
same_network (x ∷ a) b bits_left =
    let taken = bits_taken bits_left in
    let rest = same_network a (later_bytes b) (bits_after bits_left taken) in
    if is_positive bits_left then same_byte x (next_byte b) taken && rest else true

abbrev pub prefix_or : Option Number → ℕ → Number
prefix_or none n = integer (pos n)
prefix_or (some bits) n = bits

-- `ipInCidr` from the normalised address and range and the prefix on.
unfoldable pub ip_in_cidr : Option (List ℕ) → Option (List ℕ) → Option Number → Bool
unfolding same_network
ip_in_cidr none range bits = false
ip_in_cidr (some ip) none bits = false
ip_in_cidr (some ip) (some range) bits =
    if not (eqb (length ip) (length range))
    then false
    else same_network ip range (prefix_or bits (length ip * 8))
