-- ===== src/Smtp/Connection.antt =====
-- `_handle_client` from its start: behind a proxy, the header comes before the greeting
-- (aiosmtpd/smtp.py).
pub mod Refusing
use aiosmtpd.Prelude.{
  ◌≡◌, refl, ◌≢◌, Bool, true, false, not, Option, none, some, List, [], ◌∷◌, arith,
}
use aiosmtpd.Prelude.Lists.{is_empty}
use aiosmtpd.Prelude.Text.{Text, codes, get}
use aiosmtpd.Stream.{Reader}
use aiosmtpd.Proxy.Data.{ProxyData, valid}
use aiosmtpd.Proxy.Reading.{Ending, returned, raised}
use aiosmtpd.Proxy.V2.{get_proxy}
use aiosmtpd.Smtp.State.{
  Smtp, Value, missing, none_value, bool, str, bytes, strs, login_password, proxy, live, closing,
  lost, Error, cancelled, assertion_error, Result, ok, err,
}
use aiosmtpd.Smtp.Exec.{Exec, Done, pure, modify, choose, match_option, continue, ◌>>=◌, ◌>>◌}
use aiosmtpd.Smtp.Server.{Server, Proxying}
use aiosmtpd.Smtp.Wire.{call_handler_hook, close_transport, reset_timeout}
use aiosmtpd.Smtp.Client.{serve}

unfoldable pub set_proxy_data : ProxyData → Smtp → Smtp
set_proxy_data d s = record s { session = record s.session { proxy_data = some d } }

-- `status is MISSING or not status`
unfoldable pub is_rejection : Value → Bool
is_rejection missing = true
is_rejection none_value = true
is_rejection (bool b) = not b
is_rejection (str t) = is_empty t
is_rejection (bytes b) = is_empty b
is_rejection (strs ts) = is_empty ts
is_rejection (login_password l p) = false
is_rejection (proxy d) = not (valid d)

-- How reading the header ends for the coroutine. What `get_proxy` raises is that the stream has ended,
-- at which a server's coroutine is cancelled.
abbrev pub resume_proxy : Ending ProxyData × Reader → Smtp → Result ProxyData × Smtp
resume_proxy (returned d, r) s = (ok d, record s { reader = r })
resume_proxy (raised e, r) s =
    (err cancelled, record s { reader = r; connection = lost; timer = none })
resume_proxy (Ending.cancelled, r) s =
    (err cancelled, record s { reader = r; connection = lost; timer = none })

module _ (srv : Server) where
  unfoldable pub read_proxy : Proxying → Exec ProxyData
  read_proxy p s = resume_proxy (get_proxy p.ip_address p.describe srv.line_length_limit s.reader) s

  -- What the handler says of a header; without a valid one it is not asked.
  abbrev pub proxy_status : ProxyData → Exec Value
  proxy_status d =
      choose (valid d) (call_handler_hook srv (codes "PROXY") (proxy d ∷ [])) (pure (bool false))

  abbrev pub admit : Value → Exec Done
  admit status =
      choose (is_rejection status) (modify close_transport)
        (do modify (reset_timeout srv.timeout); serve srv)

  abbrev pub behind_proxy : Proxying → Exec Done
  behind_proxy p = do
    modify (reset_timeout p.timeout)
    d ← read_proxy p
    modify (set_proxy_data d)
    status ← proxy_status d
    admit status

  unfoldable pub handle_client : Exec Done
  unfolding read_proxy set_proxy_data is_rejection
  handle_client = match_option srv.proxy (serve srv) behind_proxy
