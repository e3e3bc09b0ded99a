-- ===== src/Proxy/Reading.antt =====
-- Coroutines that read a PROXY header from a stream: they return, raise, or are cancelled when the
-- peer closes the stream of a server or the timer runs out (aiosmtpd/proxy_protocol.py on asyncio's
-- StreamReader).
use aiosmtpd.Prelude.{ℕ, zero, suc, ◌-◌, ◌||◌, List, [], ◌∷◌, ◌++◌}
use aiosmtpd.Prelude.Tests.{ltb, leb, if◌then◌else◌}
use aiosmtpd.Prelude.Lists.{length, is_empty, take, drop}
use aiosmtpd.Prelude.Text.{Text, Bytes}
use aiosmtpd.Stream.{
  Event, received, timed_out, handshake, eof, Reader, Read, line, too_long, stopped, incomplete,
  read_until,
}
use aiosmtpd.Proxy.Data.{Failure, limit_overrun, incomplete_read, connection_error, out_of_fuel}

pub data Ending {ℓ} (A : Type ℓ) : Type ℓ where
  returned : A → Ending A
  raised : Failure → Ending A
  cancelled : Ending A

abbrev pub Reading {ℓ} : Type ℓ → Type ℓ
Reading A = Reader → Ending A × Reader

module _ {ℓ} {A : Type ℓ} where
  unfoldable pub pure : A → Reading A
  pure a r = (returned a, r)

  unfoldable pub raise : Failure → Reading A
  raise e r = (raised e, r)

module _ {ℓ κ} {A : Type ℓ} {B : Type κ} where
  abbrev pub continue : Ending A → (A → Reading B) → Reading B
  continue (returned a) f r = f a r
  continue (raised e) f r = (raised e, r)
  continue cancelled f r = (cancelled, r)

infixl 5 ◌>>=◌ ◌>>◌
unfoldable pub ◌>>=◌ {ℓ κ} : {A : Type ℓ} {B : Type κ} → Reading A → (A → Reading B) → Reading B
unfolding pure raise
◌>>=◌ m f r = let (x, r') = m r in continue x f r'

abbrev pub ◌>>◌ {ℓ κ} : {A : Type κ} {B : Type ℓ} → Reading A → Reading B → Reading B
m >> n = m >>= λ _. n

-- `except Exception`
abbrev pub recover {ℓ} : {A : Type ℓ} → Ending A → (Failure → A) → Ending A
recover (returned a) f = returned a
recover (raised e) f = returned (f e)
recover cancelled f = cancelled

abbrev pub stop {ℓ} : {A : Type ℓ} → Bytes → List Event → Ending A × Reader
stop buffer events = (cancelled, record { buffer = buffer; arriving = events })

abbrev pub give : ℕ → Bytes → List Event → Ending Bytes × Reader
give n buffer events =
    (returned (take n buffer), record { buffer = drop n buffer; arriving = events })

-- an `IncompleteReadError`, which empties the buffer
abbrev pub incomplete_at : List Event → Ending Bytes × Reader
incomplete_at events = (raised incomplete_read, record { buffer = []; arriving = eof ∷ events })

-- `readexactly(n)`
unfoldable pub exactly : ℕ → Bytes → List Event → Ending Bytes × Reader
exactly n buffer [] = if leb n (length buffer) then give n buffer [] else stop buffer []
exactly n buffer (received b ∷ events) =
    let later = exactly n (buffer ++ b) events in
    if leb n (length buffer) then give n buffer (received b ∷ events) else later
exactly n buffer (timed_out ∷ events) =
    if leb n (length buffer) then give n buffer (timed_out ∷ events) else stop buffer events
exactly n buffer (handshake h ∷ events) =
    let later = exactly n buffer events in
    if leb n (length buffer) then give n buffer (handshake h ∷ events) else later
exactly n buffer (eof ∷ events) =
    if leb n (length buffer) then give n buffer (eof ∷ events) else incomplete_at events

unfoldable pub readexactly : ℕ → Reading Bytes
unfolding exactly
readexactly n r = exactly n r.buffer r.arriving

-- `read(n)` for a positive `n`: what is in the buffer, or else what arrives next, and nothing at the
-- end of the stream
unfoldable pub some_of : ℕ → Bytes → List Event → Ending Bytes × Reader
some_of n (c ∷ b) events = give n (c ∷ b) events
some_of n [] [] = stop [] []
some_of n [] (received b ∷ events) = some_of n b events
some_of n [] (timed_out ∷ events) = stop [] events
some_of n [] (handshake h ∷ events) = some_of n [] events
some_of n [] (eof ∷ events) = give n [] (eof ∷ events)

unfoldable pub read_some : ℕ → Reading Bytes
unfolding some_of
read_some n r = some_of n r.buffer r.arriving

abbrev pub resume : Read → Ending Bytes × Reader
resume (line b r) = (returned b, r)
resume (too_long n r) = (raised limit_overrun, r)
resume (stopped r) = (cancelled, r)
resume (incomplete r) = (raised incomplete_read, r)

-- `readuntil()`, to a line feed
unfoldable pub readuntil : ℕ → Reading Bytes
readuntil limit r = resume (read_until limit (10 ∷ []) r.buffer r.arriving)

-- `read_rest`: the field's buffer is filled up to its length. The loop ends at an empty piece, so that
-- the fuel that `read_rest` gives is enough.
unfoldable pub fill : ℕ → Text → ℕ → Bytes → Reading Bytes
unfolding read_some ◌>>=◌
fill fuel field_name zero field_buf = pure field_buf
fill zero field_name (suc left) field_buf = raise out_of_fuel
fill (suc fuel) field_name (suc left) field_buf = read_some (suc left) >>= λ piece.
    if is_empty piece || ltb (suc left) (length piece)
    then raise (connection_error field_name)
    else fill fuel field_name (suc left - length piece) (field_buf ++ piece)

unfoldable pub read_rest : Text → Bytes → ℕ → Reading (Bytes × Bytes)
unfolding fill ◌>>=◌
read_rest field_name field_buf field_len =
    let left = field_len - length field_buf in
    fill left field_name left field_buf >>= λ b. pure (take field_len b, drop field_len b)
