-- ===== src/Common/Time.antt =====
-- `std::time::SystemTime`: seconds from the Unix epoch, before it if negative, and nanoseconds.
use chirpstack_gateway_mesh.Common.Int.{ℤ, pos, negsuc, leb_ℤ, ltb_ℤ}
use chirpstack_gateway_mesh.Common.Result.{Result, ok, err, IsSettled, before_epoch}
use chirpstack_gateway_mesh.Common.Tests.{leb}
use Prim.Native.Nat.{ℕ}
use mathlib.Core.Bool.{Bool, ◌&&◌, ◌||◌}

pub record SystemTime : Type 0 where
  pub secs : ℤ
  pub nanos : ℕ

-- `UNIX_EPOCH.checked_add(Duration::from_secs(n))`, which is in range for every u32.
abbrev pub from_unix : ℕ → SystemTime
from_unix n = record { secs = pos n; nanos = 0 }

-- `t.duration_since(UNIX_EPOCH)?.as_secs()`.
abbrev pub secs_of : ℤ → Result ℕ
secs_of (pos n) = ok n
secs_of (negsuc n) = err before_epoch

abbrev pub unix_secs : SystemTime → Result ℕ
unix_secs t = secs_of t.secs

secs_of-IsSettled : (s : ℤ) → IsSettled (secs_of s)
secs_of-IsSettled (pos n) = tt
secs_of-IsSettled (negsuc n) = tt

pub unix_secs-IsSettled : (t : SystemTime) → IsSettled (unix_secs t)
unix_secs-IsSettled t = secs_of-IsSettled t.secs

-- `a >= b`.
abbrev pub time_ge : SystemTime → SystemTime → Bool
time_ge a b = ltb_ℤ b.secs a.secs || (leb_ℤ b.secs a.secs && leb b.nanos a.nanos)
