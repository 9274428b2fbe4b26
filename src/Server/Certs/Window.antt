-- ===== src/Server/Certs/Window.antt =====
-- How long a certificate is valid.
use uncluster.Prelude.{ℕ, suc, ◌*◌, ◌-◌, ◌≤◌, ◌≡◌, false, arith}
use uncluster.Prelude.Signed.{ℤ, pos, negsuc, ◌≤ℤ◌, ltb_ℤ, scale, to_uint64, to_int64}
use uncluster.Store.Db.{Db}
use uncluster.Server.Certs.{duration, cert_ttl_max}

-- Within the range of a time.Duration there is no wrap-around.
pub duration_exact :
    (ttl : ℤ)
    → negsuc 9223372035 ≤ℤ ttl
    → ltb_ℤ cert_ttl_max ttl ≡ false
    → duration ttl ≡ scale ttl 1000000000
unfolding duration scale to_uint64 to_int64
duration_exact (pos n) h k = ground arith
duration_exact (negsuc n) h k = ground arith

-- Past it, a negative number of seconds comes out as a long time.
pub duration_wraps :
    (n : ℕ)
    → 9223372036 ≤ n
    → n ≤ 18446744072
    → duration (negsuc n) ≡ pos (18446744073709551616 - suc n * 1000000000)
unfolding duration scale to_uint64 to_int64
duration_wraps n h k = ground arith
