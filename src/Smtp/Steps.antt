-- ===== src/Smtp/Steps.antt =====
-- What a law asks of the ways in which a server touches its connection: the writes and reads, the
-- assignments, and the code that is not in the package. The modules below show that every command
-- then follows the law.
pub mod Greeting
pub mod Basic
pub mod Auth
pub mod Mail
pub mod Data
pub mod Client
use aiosmtpd.Prelude.{◌≡◌, ◌≢◌, Bool, Option, none, some, List, ◌∷◌, ℕ}
use aiosmtpd.Prelude.Text.{Text, Bytes, get}
use aiosmtpd.Smtp.State.{Peer, Smtp, Value, Content, AuthResult, AuthOutcome, Error, out_of_fuel}
use aiosmtpd.Smtp.Exec.{Exec, Done}
use aiosmtpd.Smtp.Exec.Moves.{Law, Moves}
use aiosmtpd.Smtp.Server.{Server, Hook, AuthMechanism, custom}
use aiosmtpd.Smtp.Wire.{
  write, readuntil, readline, read, set_rset_state, set_post_data_state, reset_timeout,
  close_transport, connection_lost,
}
use aiosmtpd.Smtp.Greeting.{set_extended, set_host_name, ehlo_limits}
use aiosmtpd.Smtp.Basic.{set_tls_protocol, set_handshake_okay, wait_for_tls, restart_over_tls}
use aiosmtpd.Smtp.Auth.{auth_status}
use aiosmtpd.Smtp.Mail.{set_smtp_utf8}
use aiosmtpd.Smtp.Data.{set_content, receive}
use aiosmtpd.Smtp.Client.{skip}

-- Code of the handler, of an authenticator or of a subclass, and what the law asks of it.
pub record Hooks (L : Law) (srv : Server) : Type 1 where
  pub hook :
      (k : Text) (h : Hook)
      → get k srv.handle_hooks ≡ some h
      → (args : List Value) → Moves L (h args)
  pub starttls : (h : Exec Bool) → srv.starttls_hook ≡ some h → Moves L h
  pub exception :
      (h : Error → Exec Value) → srv.exception_hook ≡ some h → (e : Error) → Moves L (h e)
  pub process : (h : Exec Value) → srv.process_message ≡ some h → Moves L h
  pub ehlo : (h : Exec Done) → srv.ehlo_hook ≡ some h → Moves L h
  pub rset : (h : Exec Done) → srv.rset_hook ≡ some h → Moves L h
  pub authenticator :
      (h : Text → Value → Exec AuthResult)
      → srv.authenticator ≡ some h
      → (m : Text) (v : Value) → Moves L (h m v)
  pub auth_callback : (m : Text) (l p : Bytes) → Moves L (srv.auth_callback m l p)
  pub mechanism :
      (k : Text) (h : List Text → Exec AuthOutcome)
      → get k srv.auth_methods ≡ some (custom h)
      → (args : List Text) → Moves L (h args)

-- What every command does: it replies and asks hooks, and MAIL notes whether the message is UTF-8.
pub record Core (L : Law) (srv : Server) : Type 1 where
  pub hook :
      (k : Text) (h : Hook)
      → get k srv.handle_hooks ≡ some h
      → (args : List Value) → Moves L (h args)
  pub allows : (e : Error) → e ≢ out_of_fuel → L.allowed e
  pub write : (b : Bytes) → Moves L (write b)
  pub set_smtp_utf8 : (b : Bool) (s : Smtp) → L.rel s (set_smtp_utf8 b s)

pub record Steps (L : Law) (srv : Server) : Type 1 where
  pub core : Core L srv
  pub hooks : Hooks L srv
  pub readuntil : (c : ℕ) (sep : Bytes) → Moves L (readuntil srv (c ∷ sep))
  pub readline : Moves L (readline srv)
  pub read : (n : ℕ) → Moves L (read n)
  pub wait_for_tls : Moves L wait_for_tls
  pub receive : Moves L (receive srv)
  pub skip : Moves L (skip srv)
  pub set_rset_state : (s : Smtp) → L.rel s (set_rset_state s)
  pub set_extended : (b : Bool) (s : Smtp) → L.rel s (set_extended b s)
  pub set_host_name : (c : ℕ) (t : Text) (s : Smtp) → L.rel s (set_host_name (c ∷ t) s)
  pub ehlo_limits : (s : Smtp) → L.rel s (ehlo_limits srv s)
  pub set_tls_protocol : (s : Smtp) → L.rel s (set_tls_protocol s)
  pub restart_over_tls : (p : Peer) (n : ℕ) (s : Smtp) → L.rel s (restart_over_tls p n s)
  pub set_handshake_okay : (b : Bool) (s : Smtp) → L.rel s (set_handshake_okay b s)
  pub auth_status :
      (m : AuthMechanism) (k : Text)
      → get k srv.auth_methods ≡ some m
      → (args : List Text) (v : Value) → Moves L (auth_status srv m args v)
  pub set_content : (c : Content) (b : Bytes) (s : Smtp) → L.rel s (set_content c b s)
  pub reset_timeout : (n : ℕ) (s : Smtp) → L.rel s (reset_timeout n s)
  pub close_transport : (s : Smtp) → L.rel s (close_transport s)
  pub connection_lost : (s : Smtp) → L.rel s (connection_lost s)
