-- ===== src/Event/Flags.antt =====
-- The `Flags` operators of src/common/MarketDataEvent.hpp, over the byte that a `Flags` is.
use Prim.Native.Nat.{bit_and, bit_or}
use back_tester.Prelude.{
  ℕ, zero, suc, ◌-◌, ◌^◌, ◌<◌, ◌≡◌, refl, Bool, true, not, ◌&&◌, ◌||◌, ◌==◌, arith,
}

-- The enumerators.
abbrev pub last : ℕ
last = 0x80

abbrev pub tob : ℕ
tob = 0x40

abbrev pub snapshot : ℕ
snapshot = 0x20

abbrev pub mbp : ℕ
mbp = 0x10

abbrev pub bad_ts_recv : ℕ
bad_ts_recv = 0x08

abbrev pub maybe_bad_book : ℕ
maybe_bad_book = 0x04

abbrev pub publisher_spec : ℕ
publisher_spec = 0x02

-- `operator|`, `operator&` and `operator~`
unfoldable pub flag_or : ℕ → ℕ → ℕ
flag_or a b = bit_or a b

unfoldable pub flag_and : ℕ → ℕ → ℕ
flag_and a b = bit_and a b

unfoldable pub flag_not : ℕ → ℕ
flag_not a = 255 - a

unfoldable pub has_flag : ℕ → ℕ → Bool
unfolding flag_and
has_flag field bit = not (flag_and field bit == 0)

and-true : (a b : Bool) → (a && b) ≡ true → (a ≡ true) × (b ≡ true)
and-true Bool.true b h = (refl, h)
and-true Bool.false b h = cc

-- Does a test hold at each number under a bound?
holds_under : (ℕ → Bool) → ℕ → Bool
holds_under test zero = true
holds_under test (suc bound) = holds_under test bound && test bound

holds_under-at :
    (test : ℕ → Bool) (bound i : ℕ) → i < bound → holds_under test bound ≡ true → test i ≡ true
unfolding holds_under
holds_under-at test zero i small h = absurd (omega (arith, small))
holds_under-at test (suc bound) i small h =
    ground (arith, holds_under-at test bound i, and-true (holds_under test bound) (test bound) h)

-- Two Boolean values, compared.
abbrev same : Bool → Bool → Bool
same Bool.true b = b
same Bool.false b = not b

same-eq : (a b : Bool) → same a b ≡ true → a ≡ b
same-eq Bool.true b h = ground arith
same-eq Bool.false b h = ground arith

-- Setting and clearing bit `k`, seen at bit `j`.
bit_laws : ℕ → ℕ → ℕ → Bool
bit_laws x k j =
    same (has_flag (flag_or x (2 ^ k)) (2 ^ j)) (j == k || has_flag x (2 ^ j))
    && same (has_flag (flag_and x (flag_not (2 ^ k))) (2 ^ j)) (not (j == k) && has_flag x (2 ^ j))

laws_of_byte : ℕ → Bool
laws_of_byte x = holds_under (λ k. holds_under (bit_laws x k) 8) 8

every_byte : holds_under laws_of_byte 256 ≡ true
unfolding holds_under laws_of_byte bit_laws has_flag flag_or flag_not
every_byte = refl

bit_laws-true : (x k j : ℕ) → x < 256 → k < 8 → j < 8 → bit_laws x k j ≡ true
unfolding laws_of_byte
bit_laws-true x k j hx hk hj =
    let of_byte = holds_under-at laws_of_byte 256 x hx every_byte in
    let of_bit = holds_under-at (λ i. holds_under (bit_laws x i) 8) 8 k hk of_byte in
    holds_under-at (bit_laws x k) 8 j hj of_bit

-- For a flags byte x and bits k and j: or-ing bit k in sets it and leaves every other bit as it
-- was, and and-ing with the complement of bit k clears it and leaves every other bit as it was.
pub flag_set_clear :
    (x k j : ℕ)
    → x < 256
    → k < 8
    → j < 8
    → (has_flag (flag_or x (2 ^ k)) (2 ^ j) ≡ (j == k || has_flag x (2 ^ j)))
      × (has_flag (flag_and x (flag_not (2 ^ k))) (2 ^ j) ≡ (not (j == k) && has_flag x (2 ^ j)))
unfolding bit_laws
flag_set_clear x k j hx hk hj =
    let h =
      and-true (same (has_flag (flag_or x (2 ^ k)) (2 ^ j)) (j == k || has_flag x (2 ^ j)))
        (same (has_flag (flag_and x (flag_not (2 ^ k))) (2 ^ j))
          (not (j == k) && has_flag x (2 ^ j)))
        (bit_laws-true x k j hx hk hj) in
    (same-eq _ _ h.0, same-eq _ _ h.1)
