-- ===== src/Controller/Localhost.antt =====
-- `get_localhost`, and where `_trigger_server` connects to (aiosmtpd/controller.py).
use aiosmtpd.Prelude.{
  ℕ, ◌≡◌, refl, ◌≢◌, ◌↔◌, ◌⊎◌, Bool, true, false, Option, none, some, [], ◌∷◌, arith,
}
use aiosmtpd.Prelude.Tests.{if◌then◌else◌}
use aiosmtpd.Prelude.Text.{Text, codes}

-- The number of an `OSError`, as far as `IP6_IS` tells them apart.
pub data Errno : Type 0 where
  eaddrnotavail eafnosupport eaddrinuse : Errno
  other : ℕ → Errno

-- `bind(("::1", 0))` succeeds or raises.
pub data Attempt : Type 0 where
  bound : Attempt
  os_error : Errno → Attempt

pub data Localhost : Type 0 where
  address : Text → Localhost
  raised : Errno → Localhost

abbrev pub ipv6_localhost : Text
ipv6_localhost = codes "::1"

abbrev pub ipv4_localhost : Text
ipv4_localhost = codes "127.0.0.1"

-- `IP6_IS.NO` and `IP6_IS.YES`
unfoldable pub is_no : Errno → Bool
is_no eaddrnotavail = true
is_no eafnosupport = true
is_no _ = false

unfoldable pub is_yes : Errno → Bool
is_yes eaddrinuse = true
is_yes _ = false

unfoldable pub by_attempt : Attempt → Localhost
unfolding is_no is_yes
by_attempt bound = address ipv6_localhost
by_attempt (os_error e) =
    if is_no e
    then address ipv4_localhost
    else if is_yes e
    then address ipv6_localhost
    else raised e

unfoldable pub get_localhost : Bool → Attempt → Localhost
unfolding by_attempt
get_localhost has_ipv6 attempt = if has_ipv6 then by_attempt attempt else address ipv4_localhost

-- `InetMixin.__init__`: the name the server binds to
unfoldable pub bind_hostname : Option Text → Text → Text
bind_hostname none localhost = localhost
bind_hostname (some h) localhost = h

-- `hostname = self.hostname or self._localhost`
unfoldable pub trigger_hostname : Text → Text → Text
trigger_hostname [] localhost = localhost
trigger_hostname (c ∷ cs) localhost = c ∷ cs

-- The address that the check of a started server connects to, of an `InetMixin` that is given
-- `hostname`; `raised` where `__init__` lets the exception through.
unfoldable pub connect_to : Option Text → Localhost → Localhost
unfolding bind_hostname trigger_hostname
connect_to hostname (address a) = address (trigger_hostname (bind_hostname hostname a) a)
connect_to hostname (raised e) = raised e

-- Binding to the localhost of IPv6 works, or fails only because the address is in use.
abbrev pub works : Attempt → Bool
works bound = true
works (os_error eaddrinuse) = true
works _ = false

-- Python and the system have IPv6.
abbrev pub HasIpv6 : Bool → Attempt → Type 0
HasIpv6 has_ipv6 attempt = (has_ipv6 ≡ true) × (works attempt ≡ true)

ipv6-ne-ipv4 : address ipv4_localhost ≢ address ipv6_localhost
unfolding codes
ipv6-ne-ipv4 h = ground arith

get_localhost_iff :
    (has_ipv6 : Bool) (attempt : Attempt)
    → (get_localhost has_ipv6 attempt ≡ address ipv6_localhost) ↔ HasIpv6 has_ipv6 attempt
unfolding get_localhost
get_localhost_iff false a = ground (arith, ipv6-ne-ipv4)
get_localhost_iff true bound = ground (arith, ipv6-ne-ipv4)
get_localhost_iff true (os_error eaddrnotavail) = ground (arith, ipv6-ne-ipv4)
get_localhost_iff true (os_error eafnosupport) = ground (arith, ipv6-ne-ipv4)
get_localhost_iff true (os_error eaddrinuse) = ground (arith, ipv6-ne-ipv4)
get_localhost_iff true (os_error (other n)) = ground (arith, ipv6-ne-ipv4)

local_trigger :
    (l : Localhost) (hostname : Option Text)
    → (hostname ≡ none) ⊎ (hostname ≡ some [])
    → connect_to hostname l ≡ l
unfolding connect_to
local_trigger (address []) (some _) h = ground arith
local_trigger (address (c ∷ cs)) none h = refl
local_trigger (address []) none h = refl
local_trigger (address (c ∷ cs)) (some t) h = ground arith
local_trigger (raised e) _ h = refl

-- Where no name is given, or the empty one, which binds to every address, a started server is looked
-- for at the localhost of IPv6 exactly when Python has IPv6 and binding there works, or fails
-- because the address is in use.
pub connect_to-localhost :
    (hostname : Option Text) (has_ipv6 : Bool) (attempt : Attempt)
    → (hostname ≡ none) ⊎ (hostname ≡ some [])
    → (connect_to hostname (get_localhost has_ipv6 attempt) ≡ address ipv6_localhost)
      ↔ HasIpv6 has_ipv6 attempt
connect_to-localhost hostname has_ipv6 attempt h =
    rw (local_trigger (get_localhost has_ipv6 attempt) hostname h)
      (get_localhost_iff has_ipv6 attempt)
