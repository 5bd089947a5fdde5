-- ===== src/Common/Hosts.antt =====
-- What the programs make of a name of a host and of a port, behind their command lines.
use Prim.Native.Nat.{ℕ, ◌-◌, ◌%◌, ◌<◌}
use mathlib.Core.Path.{◌≡◌}
use mathlib.Core.Option.{Option, none, some}
use native.Mathlib.Omega.{arith}
use cs2520_2021spring.Common.Int.{ℤ, pos, negsuc}
use cs2520_2021spring.Common.Text.{Outcome, exits, undefined, parsed}

-- `htons` of an `int`: the last 16 bits.
abbrev pub port_of : ℤ → ℕ
port_of (pos n) = n % 65_536
port_of (negsuc n) = 65_535 - n % 65_536

pub port_of-small : (n : ℕ) → n < 65_536 → port_of (pos n) ≡ n
port_of-small n h = ground arith

-- `INADDR_ANY`
abbrev pub any : ℕ
any = 0

-- With the address that `gethostbyname` found; where it found none, the program ends.
abbrev pub with_host {ℓ} : {A : Type ℓ} → Option ℕ → (ℕ → Option A) → Option A
with_host none k = none
with_host (some host) k = k host

-- A program from its command line on; `none` is its end.
abbrev pub from_usage {ℓ κ} : {A : Type ℓ} {B : Type κ} → Outcome A → (A → Option B) → Option B
from_usage exits k = none
from_usage undefined k = none
from_usage (parsed a) k = k a
