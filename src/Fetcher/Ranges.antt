-- ===== src/Fetcher/Ranges.antt =====
-- The masks of `isPrivateIP` as intervals of addresses.
use agentlens.Common.{ℕ, ◌≤◌, ◌≡◌, ◌↔◌, ◌⊎◌, true, arith}
use agentlens.Fetcher.{v4, is_private_ip}

-- A 32-bit address is blocked exactly if it lies in 10.0.0.0 to 10.255.255.255, 127.0.0.0 to
-- 127.255.255.255, 169.254.0.0 to 169.254.255.255, 172.16.0.0 to 172.31.255.255 or 192.168.0.0 to
-- 192.168.255.255.
pub is_private_ip_v4_iff :
    (n : ℕ)
    → (is_private_ip (v4 n) ≡ true) ↔ (
        ((167772160 ≤ n) × (n ≤ 184549375))
        ⊎ ((2130706432 ≤ n) × (n ≤ 2147483647))
        ⊎ ((2851995648 ≤ n) × (n ≤ 2852061183))
        ⊎ ((2886729728 ≤ n) × (n ≤ 2887778303))
        ⊎ ((3232235520 ≤ n) × (n ≤ 3232301055)))
unfolding is_private_ip
is_private_ip_v4_iff n = ground arith
