-- ===== src/Controller/Trigger.antt =====
-- `_trigger_server` of `InetMixin` and `UnixSocketMixin` (aiosmtpd/controller.py): what it does with
-- sockets, and how it ends.
use aiosmtpd.Prelude.{ℕ, ◌≡◌, ◌↔◌, Bool, true, false, ◌&&◌, List, [], ◌∷◌, ◌++◌, arith}
use aiosmtpd.Prelude.Tests.{if◌then◌else◌}
use aiosmtpd.Prelude.Text.{Text}
use aiosmtpd.Controller.Threaded.State.{Trigger, answered, timed_out, failed}

-- A context of TLS: its options, whether it compares the server's name, whether it verifies the
-- certificate.
pub record SslContext : Type 0 where
  pub options : ℕ
  pub check_hostname : Bool
  pub verifies : Bool

-- `_server_to_client_ssl_ctx`
unfoldable pub server_to_client_ssl_ctx : SslContext → SslContext
server_to_client_ssl_ctx server_ctx = record {
  options = server_ctx.options;
  check_hostname = false;
  verifies = false;
}

-- How a call of the socket library ends.
pub data Step : Type 0 where
  succeeds : Step
  times_out : Step
  errs : Text → Step

-- The calls that are made if none before them fails.
pub record Calls : Type 0 where
  pub create : Step
  pub connect : Step
  pub wrap : Step
  pub recv : Step

-- What happens to a socket, and to the TLS over it.
pub data Deed : Type 0 where
  opened wrapped read unwrapped closed : Deed

abbrev pub Deeds : Type 0
Deeds = List Deed × Trigger

-- A step, and what follows where it succeeds.
unfoldable pub then_do : Step → Deeds → Deeds
then_do succeeds d = d
then_do times_out d = ([], timed_out)
then_do (errs t) d = ([], failed t)

-- The `ExitStack`: what was entered is left again, however the rest ends.
unfoldable pub entered : Deed → Deed → Deeds → Deeds
entered enter leave (ds, t) = (enter ∷ (ds ++ leave ∷ []), t)

-- `s.recv(1024)`
unfoldable pub receive_some : Step → Deeds
unfolding then_do
receive_some recv = then_do recv (read ∷ [], answered)

-- `if self.ssl_context`
unfoldable pub speak : Bool → Calls → Deeds
unfolding then_do entered receive_some
speak ssl c =
    if ssl
    then then_do c.wrap (entered wrapped unwrapped (receive_some c.recv))
    else receive_some c.recv

-- `InetMixin._trigger_server`; `create_connection` opens and connects at once.
unfoldable pub inet_trigger : Bool → Calls → Deeds
unfolding then_do entered speak
inet_trigger ssl c = then_do c.connect (entered opened closed (speak ssl c))

-- `UnixSocketMixin._trigger_server`
unfoldable pub unix_trigger : Bool → Calls → Deeds
unfolding then_do entered speak
unix_trigger ssl c = then_do c.create (entered opened closed (then_do c.connect (speak ssl c)))

-- Whether each socket and each TLS layer is left, the inner one first: `socket` and `tls` tell which
-- is there.
abbrev pub left_behind : Bool → Bool → List Deed → Bool
left_behind socket tls [] = socket
left_behind socket tls (opened ∷ ds) = left_behind true tls ds
left_behind socket tls (wrapped ∷ ds) = left_behind socket true ds
left_behind socket tls (read ∷ ds) = left_behind socket tls ds
left_behind socket tls (unwrapped ∷ ds) = left_behind socket false ds
left_behind socket tls (closed ∷ ds) = if tls then true else left_behind false tls ds

abbrev pub fine : Step → Bool
fine succeeds = true
fine _ = false

-- However the calls end, no socket is left open and no TLS layer over a closed socket; and the check
-- has its answer exactly when each call that it makes succeeds, the one that opens a Unix socket
-- and the handshake of TLS where there is one.
pub trigger-closes :
    (ssl : Bool) (c : Calls)
    → (left_behind false false (inet_trigger ssl c).0 ≡ false)
      × (left_behind false false (unix_trigger ssl c).0 ≡ false)
      × (((inet_trigger ssl c).1 ≡ answered)
          ↔ ((fine c.connect && (if ssl then fine c.wrap else true) && fine c.recv) ≡ true))
      × (((unix_trigger ssl c).1 ≡ answered) ↔ (
          (fine c.create && fine c.connect && (if ssl then fine c.wrap else true) && fine c.recv)
          ≡ true))
unfolding inet_trigger unix_trigger
trigger-closes ssl c = ground arith
