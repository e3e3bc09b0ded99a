-- ===== src/Smtp/Connection/Refusing.antt =====
-- Behind a proxy nothing is said to a client before a valid header (`_handle_client` in
-- aiosmtpd/smtp.py).
use mathlib.Core.Path.{subst}
use aiosmtpd.Prelude.{◌≡◌, refl, sym, ◌≢◌, Bool, true, false, Option, none, some, [], ◌∷◌, arith}
use aiosmtpd.Prelude.Text.{codes}
use aiosmtpd.Stream.{Reader}
use aiosmtpd.Proxy.Data.{ProxyData, valid}
use aiosmtpd.Proxy.Reading.{Ending, returned, raised}
use aiosmtpd.Proxy.V2.{get_proxy}
use aiosmtpd.Smtp.State.{Smtp, Value, bool, proxy, live, Result, ok}
use aiosmtpd.Smtp.Exec.{Exec, Done, pure, modify, choose, match_option, continue, ◌>>=◌}
use aiosmtpd.Smtp.Server.{Server, Proxying}
use aiosmtpd.Smtp.Wire.{call_handler_hook, close_transport, reset_timeout}
use aiosmtpd.Smtp.Client.{serve}
use aiosmtpd.Smtp.Connection.{
  set_proxy_data, is_rejection, resume_proxy, read_proxy, proxy_status, admit, behind_proxy,
  handle_client,
}

-- Reading a header has not ended with a valid one.
abbrev pub Unproven : Ending ProxyData → Type 0
Unproven (returned d) = valid d ≡ false
Unproven (raised e) = Unit
Unproven Ending.cancelled = Unit

-- Nothing has been sent, and a return leaves a connection that is not live.
abbrev pub Refused : Smtp → Result Done × Smtp → Type 0
Refused s (r, t) = (t.written ≡ s.written) × (r ≡ ok tt → t.connection ≢ live)

close-Refused : (s t : Smtp) → t.written ≡ s.written → Refused s (modify close_transport t)
unfolding modify close_transport
close-Refused s t e = (ground arith, λ h. ground arith)

module _ (srv : Server) where
  rejected-Refused :
      (d : ProxyData) (s t : Smtp)
      → valid d ≡ false
      → t.written ≡ s.written
      → Refused s ((proxy_status srv d >>= admit srv) t)
  unfolding ◌>>=◌ pure is_rejection
  rejected-Refused d s t e w = go (valid d) (call_handler_hook srv (codes "PROXY") (proxy d ∷ [])) e
    where
      go :
          (b : Bool) (m : Exec Value)
          → b ≡ false
          → Refused s ((choose b m (pure (bool false)) >>= admit srv) t)
      go true m p = cc
      go false m p = close-Refused s t w

  header-Refused :
      (x : Ending ProxyData × Reader) (s t : Smtp)
      → Unproven x.0
      → t.written ≡ s.written
      → Refused s (
          let (r, u) = resume_proxy x t in
          continue {B = Done} r
            (λ d. modify (set_proxy_data d) >>= λ n. proxy_status srv d >>= admit srv)
            u)
  unfolding ◌>>=◌ modify set_proxy_data
  header-Refused (returned d, r) s t e w = rejected-Refused d s _ e w
  header-Refused (raised f, r) s t e w = (w, λ h. cc)
  header-Refused (Ending.cancelled, r) s t e w = (w, λ h. cc)

  behind_proxy-Refused :
      (p : Proxying) (s : Smtp)
      → Unproven (get_proxy p.ip_address p.describe srv.line_length_limit s.reader).0
      → Refused s (behind_proxy srv p s)
  unfolding ◌>>=◌ modify read_proxy reset_timeout
  behind_proxy-Refused p s e =
      header-Refused (get_proxy p.ip_address p.describe srv.line_length_limit s.reader) s
        (reset_timeout p.timeout s) e refl

  -- On a server behind a proxy, when reading the header has not ended with a valid one, nothing is
  -- sent to the client, not even the greeting, whatever the hooks are; and if the conversation
  -- returns, the transport is no longer live.
  pub handle_client-Refused :
      (p : Proxying) (s : Smtp)
      → srv.proxy ≡ some p
      → Unproven (get_proxy p.ip_address p.describe srv.line_length_limit s.reader).0
      → Refused s (handle_client srv s)
  unfolding handle_client
  handle_client-Refused p s proxied e = go srv.proxy proxied
    where
      go :
          (o : Option Proxying)
          → o ≡ some p
          → Refused s (match_option o (serve srv) (behind_proxy srv) s)
      go none q = cc
      go (some p') q =
          subst (λ x. Refused s (match_option x (serve srv) (behind_proxy srv) s)) (sym q)
            (behind_proxy-Refused p s e)
