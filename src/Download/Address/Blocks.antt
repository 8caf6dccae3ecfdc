-- ===== src/Download/Address/Blocks.antt =====
-- The private addresses as blocks of addresses.
use Prim.Native.Nat.{◌/◌}
use dockerfile_x.Common.{ℕ, ◌+◌, ◌*◌, ◌<◌, ◌≡◌, Bool, List, [], ◌∷◌, ◌==◌, any, arith}
use dockerfile_x.Download.Address.{is_private_octets}

-- The address as a number of 32 bits.
unfoldable pub address : ℕ → ℕ → ℕ → ℕ → ℕ
address a b c d = a * 16777216 + b * 65536 + c * 256 + d

-- A block: a network, and the number of addresses in it, a power of two.
abbrev pub in_block : ℕ → ℕ × ℕ → Bool
in_block x (network, size) = x / size == network / size

-- 0.0.0.0/8, 10.0.0.0/8, 127.0.0.0/8, 169.254.0.0/16, 172.16.0.0/12, 192.168.0.0/16 and 224.0.0.0/3.
unfoldable pub private_blocks : List (ℕ × ℕ)
unfolding address
private_blocks =
    (address 0 0 0 0, 16777216)
    ∷ (address 10 0 0 0, 16777216)
    ∷ (address 127 0 0 0, 16777216)
    ∷ (address 169 254 0 0, 65536)
    ∷ (address 172 16 0 0, 1048576)
    ∷ (address 192 168 0 0, 65536)
    ∷ (address 224 0 0 0, 536870912)
    ∷ []

module _ (a b c d : ℕ) (hb : b < 256) (hc : c < 256) (hd : d < 256) where
  address-div_8 : address a b c d / 16777216 ≡ a
  unfolding address
  address-div_8 = omega arith

  address-div_16 : address a b c d / 65536 ≡ a * 256 + b
  unfolding address
  address-div_16 = omega arith

  address-div_12 : address a b c d / 1048576 ≡ a * 16 + b / 16
  unfolding address
  address-div_12 = omega arith

  address-div_3 : address a b c d / 536870912 ≡ a / 32
  unfolding address
  address-div_3 = omega arith

-- The tests on the numbers of an IPv4 address say whether the address is in one of the seven blocks, for
-- all addresses.
pub is_private_octets-any_block :
    (a b c d : ℕ)
    → a < 256
    → b < 256
    → c < 256
    → d < 256
    → is_private_octets a b ≡ any (in_block (address a b c d)) private_blocks
unfolding is_private_octets private_blocks
is_private_octets-any_block a b c d ha hb hc hd =
    rw
      (
        address-div_8 a b c d hb hc hd,
        address-div_16 a b c d hb hc hd,
        address-div_12 a b c d hb hc hd,
        address-div_3 a b c d hb hc hd,
      )
      (ground arith)
