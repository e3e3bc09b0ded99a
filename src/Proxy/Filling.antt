-- ===== src/Proxy/Filling.antt =====
-- How reading a PROXY header can end: `read_rest` of `_get_v2`, and `get_proxy`
-- (aiosmtpd/proxy_protocol.py).
use aiosmtpd.Prelude.{
  ℕ, zero, suc, ◌-◌, ◌≤◌, ◌<◌, ◌≡◌, refl, ◌≢◌, Bool, true, false, ◌||◌, List, [], ◌∷◌, ◌++◌, arith,
}
use aiosmtpd.Prelude.Tests.{ltb, if◌then◌else◌}
use aiosmtpd.Prelude.Lists.{length, is_empty, take, drop}
use aiosmtpd.Prelude.Text.{Text, Bytes}
use aiosmtpd.Stream.{Event, received, timed_out, handshake, eof, Reader}
use aiosmtpd.Stream.Chunks.{incoming}
use aiosmtpd.Proxy.Data.{Failure, out_of_fuel, connection_error, incomplete_read}
use aiosmtpd.Proxy.Reading.{
  Reading, Ending, returned, raised, cancelled, continue, some_of, read_some, fill, read_rest,
  ◌>>=◌, pure, raise,
}

-- What reads a piece does not run out of fuel.
some_of-unspent :
    (n : ℕ) (buffer : Bytes) (events : List Event)
    → (some_of n buffer events).0 ≢ raised out_of_fuel
unfolding some_of
some_of-unspent n (c ∷ b) events = λ p. cc
some_of-unspent n [] [] = λ p. cc
some_of-unspent n [] (received b ∷ events) = some_of-unspent n b events
some_of-unspent n [] (timed_out ∷ events) = λ p. cc
some_of-unspent n [] (handshake h ∷ events) = some_of-unspent n [] events
some_of-unspent n [] (eof ∷ events) = λ p. cc

not_empty : (b : Bytes) (c : Bool) → (is_empty b || c) ≡ false → 0 < length b
not_empty [] c h = cc
not_empty (x ∷ b) c h = omega arith

fill-ends :
    (fuel : ℕ) (name : Text) (left : ℕ) (buf : Bytes) (r : Reader)
    → left ≤ fuel
    → (fill fuel name left buf r).0 ≢ raised out_of_fuel
unfolding fill ◌>>=◌ pure raise read_some
fill-ends fuel name zero buf r h = λ e. cc
fill-ends zero name (suc left) buf r h = absurd (omega arith)
fill-ends (suc fuel) name (suc left) buf r h =
    out (fill-ends fuel name) (some_of (suc left) r.buffer r.arriving).0
      (some_of (suc left) r.buffer r.arriving).1 (some_of-unspent (suc left) r.buffer r.arriving)
  where
    pick :
        (b : Bool) (m : Reading Bytes) (t : Reader)
        → (b ≡ false → (m t).0 ≢ raised out_of_fuel)
        → ((if b then raise (connection_error name) else m) t).0 ≢ raised out_of_fuel
    pick true m t k = λ e. cc
    pick false m t k = k refl

    out :
        ((left : ℕ) (buf : Bytes) (r : Reader)
          → left ≤ fuel
          → (fill fuel name left buf r).0 ≢ raised out_of_fuel)
        → (x : Ending Bytes) (t : Reader) → x ≢ raised out_of_fuel
        → (continue {B = Bytes} x
            (λ piece.
              if is_empty piece || ltb (suc left) (length piece)
              then raise (connection_error name)
              else fill fuel name (suc left - length piece) (buf ++ piece))
            t).0
          ≢ raised out_of_fuel
    out ih (returned piece) t k = pick (is_empty piece || ltb (suc left) (length piece)) _ t (λ q.
        ih (suc left - length piece) (buf ++ piece) t
          (omega (arith, not_empty piece (ltb (suc left) (length piece)) q)))
    out ih (raised e) t k = λ p. k p
    out ih cancelled t k = λ e. cc

failure_of :
    {e d : Failure}
    → ◌≡◌ {A = Ending (Bytes × Bytes)} (raised e) (raised d)
    → ◌≡◌ {A = Ending Bytes} (raised e) (raised d)
failure_of p = cc

-- Reading a field ends by itself, whatever arrives and however: the model's fuel is never used up.
pub read_rest-ends :
    (name : Text) (buf : Bytes) (len : ℕ) (r : Reader)
    → (read_rest name buf len r).0 ≢ raised out_of_fuel
unfolding read_rest ◌>>=◌ pure
read_rest-ends name buf len r =
    out (fill (len - length buf) name (len - length buf) buf r).0 _
      (fill-ends (len - length buf) name (len - length buf) buf r (omega arith))
  where
    out :
        (x : Ending Bytes) (t : Reader)
        → x ≢ raised out_of_fuel
        → (continue {B = Bytes × Bytes} x (λ b. pure (take len b, drop len b)) t).0
          ≢ raised out_of_fuel
    out (returned b) t k = λ e. cc
    out (raised e) t k = λ p. k (failure_of p)
    out cancelled t k = λ e. cc

-- The bytes of a reader before the end of its stream.
abbrev pub before_eof : Reader → Bytes
before_eof r = r.buffer ++ incoming r.arriving

-- Too little arrives before the end of the stream.
abbrev pub Short : ℕ → Bytes → List Event → Failure → Type 0
Short n buffer events e = (e ≡ incomplete_read) × (length (buffer ++ incoming events) < n)
