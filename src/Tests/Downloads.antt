-- ===== src/Tests/Downloads.antt =====
-- The policy on redirects at concrete addresses.
use dockerfile_x.Common.{◌≡◌, ◌↔◌, refl, true, false, [], ◌∷◌, codes, any, arith}
use dockerfile_x.Errors.{ok, err}
use dockerfile_x.Download.Address.{
  is_private_octets, is_private_ipv4, is_private_ipv6, is_private_ip,
}
use dockerfile_x.Download.Address.Blocks.{
  address, in_block, private_blocks, is_private_octets-any_block,
}
use dockerfile_x.Download.Redirects.{
  cidr4, ip, suffix, matches_pattern, check_redirect, parse_redirect_allowlist, matches_allowlist,
  private_target,
}
use dockerfile_x.Tests.World.{platform, url_at}
use dockerfile_x.Download.Redirects.Guarded.{
  mapped_loopback, IsPermitted, check_redirect-IsPermitted,
}

metadata_address : is_private_ipv4 (codes "169.254.169.254") ≡ true
unfolding is_private_ipv4
metadata_address = refl

-- The loopback address as a mapped one, as it is written and as `new URL` prints it.
mapped_address : is_private_ipv6 (codes "::ffff:127.0.0.1") ≡ true
unfolding is_private_ipv6
mapped_address = refl

printed_address : is_private_ipv6 (codes "::ffff:7f00:1") ≡ false
unfolding is_private_ipv6
printed_address = refl

allow_list :
    parse_redirect_allowlist platform (codes "10.0.0.0/8, *.Corp")
    ≡ ok (cidr4 (codes "10.0.0.0") 8 ∷ suffix (codes ".corp") ∷ [])
unfolding parse_redirect_allowlist platform
allow_list = refl

allowed : matches_allowlist platform (codes "10.0.0.1") (cidr4 (codes "10.0.0.0") 8 ∷ []) ≡ true
unfolding matches_allowlist platform
allowed = refl

refused :
    check_redirect platform (codes "https://a") (url_at (codes "a")) [] (url_at (codes "10.0.0.1"))
    ≡ err (private_target (codes "https://a") (url_at (codes "10.0.0.1")))
unfolding check_redirect platform
refused = refl

is_private_octets-any_block_example :
    is_private_octets 172 31 ≡ any (in_block (address 172 31 0 1)) private_blocks
is_private_octets-any_block_example =
    is_private_octets-any_block 172 31 0 1 (omega arith) (omega arith) (omega arith) (omega arith)

check_redirect-IsPermitted_example :
    ((check_redirect platform
          (codes "https://a")
          (url_at (codes "a"))
          []
          (url_at (codes "10.0.0.1"))
        ≡ ok tt)
      ↔ IsPermitted platform (url_at (codes "a")) (url_at (codes "10.0.0.1")) [])
    × (is_private_ip platform.is_ip mapped_loopback ≡ false)
    × (matches_pattern platform (codes "[::1]") (ip (codes "::1")) ≡ false)
check_redirect-IsPermitted_example =
    check_redirect-IsPermitted platform (codes "https://a") (url_at (codes "a")) []
      (url_at (codes "10.0.0.1"))
