-- ===== src/Proxy/Chunks.antt =====
-- The reads of a PROXY header do not depend on how its bytes arrive (aiosmtpd/proxy_protocol.py).
use mathlib.Core.List.{append_assoc, append-nil}
use native.Mathlib.Decide.{dec_le}
use aiosmtpd.Prelude.{
  ℕ, zero, suc, ◌+◌, ◌-◌, ◌≤◌, ◌<◌, ◌≡◌, refl, sym, ap, ◌∙◌, false, List, [], ◌∷◌, ◌++◌, arith,
}
use aiosmtpd.Prelude.Tests.{ltb, leb, if◌then◌else◌}
use aiosmtpd.Prelude.Lists.{
  length, is_empty, take, drop, length-append, take-length_append, drop-length_append,
}
use aiosmtpd.Prelude.Text.{Text, Bytes}
use aiosmtpd.Prelude.Find.{take-append, drop-append}
use aiosmtpd.Stream.{Event, received, timed_out, handshake, eof, Reader}
use aiosmtpd.Stream.Chunks.{IsPlain, incoming, Holds}
use aiosmtpd.Proxy.Reading.{
  Ending, returned, give, exactly, readexactly, some_of, read_some, fill, read_rest, ◌>>=◌, pure,
}

-- `m` returns `a` and leaves these bytes.
abbrev pub Gives {ℓ} : {A : Type ℓ} → Ending A × Reader → A → Bytes → Type ℓ
Gives y a rest = (r : Reader) × (y ≡ (returned a, r)) × Holds r rest

if_le {ℓ} : {A : Type ℓ} (m n : ℕ) (y z : A) → m ≤ n → (if leb m n then y else z) ≡ y
if_le m n y z h = ground arith

if_gt {ℓ} : {A : Type ℓ} (m n : ℕ) (y z : A) → n < m → (if leb m n then y else z) ≡ z
if_gt m n y z h = ground arith

Gives-if {ℓ} :
    {A : Type ℓ} (m n : ℕ) (y z : Ending A × Reader) (a : A) (rest : Bytes)
    → (m ≤ n → Gives y a rest)
    → (n < m → Gives z a rest)
    → Gives (if leb m n then y else z) a rest
Gives-if m n y z a rest f g = elim (dec_le m n) [
  | yes h ↦ let (r, e, k) = f h in (r, if_le m n y z h ∙ e, k)
  | no h ↦ let l : n < m = omega arith in let (r, e, k) = g l in (r, if_gt m n y z l ∙ e, k)
]

module _ (xs rest : Bytes) where
  take_part :
      (buffer later : Bytes)
      → buffer ++ later ≡ xs ++ rest
      → length xs ≤ length buffer
      → (take (length xs) buffer ≡ xs) × (drop (length xs) buffer ++ later ≡ rest)
  take_part buffer later e h = (
    sym (take-append (length xs) buffer later h)
        ∙ ap (take (length xs)) e
        ∙ take-length_append xs rest,
    sym (drop-append (length xs) buffer later h)
        ∙ ap (drop (length xs)) e
        ∙ drop-length_append xs rest,
  )

  give-Gives :
      (buffer : Bytes) (events : List Event)
      → IsPlain events
      → buffer ++ incoming events ≡ xs ++ rest
      → length xs ≤ length buffer
      → Gives (give (length xs) buffer events) xs rest
  give-Gives buffer events plain e h =
      let t = take_part buffer (incoming events) e h in
      (
        record { buffer = drop (length xs) buffer; arriving = events },
        rw t.0,
        record { plain = plain; content = t.1 },
      )

  exactly-Gives :
      (buffer : Bytes) (events : List Event)
      → IsPlain events
      → buffer ++ incoming events ≡ xs ++ rest
      → Gives (exactly (length xs) buffer events) xs rest
  unfolding exactly
  exactly-Gives buffer [] plain e =
      Gives-if (length xs) (length buffer) _ _ xs rest (give-Gives buffer [] plain e)
        (λ h. absurd (omega (arith, ap length e, length-append buffer [], length-append xs rest)))
  exactly-Gives buffer (received b ∷ events) plain e =
      Gives-if (length xs) (length buffer) _ _ xs rest
        (give-Gives buffer (received b ∷ events) plain e)
        (λ h.
          exactly-Gives (buffer ++ b) events plain (append_assoc buffer b (incoming events) ∙ e))
  exactly-Gives buffer (timed_out ∷ events) plain e = absurd plain
  exactly-Gives buffer (handshake x ∷ events) plain e = absurd plain
  exactly-Gives buffer (eof ∷ events) plain e = absurd plain

  -- `readexactly` takes exactly what is wanted, however it arrives.
  pub readexactly-Gives :
      (r : Reader) → Holds r (xs ++ rest) → Gives (readexactly (length xs) r) xs rest
  unfolding readexactly
  readexactly-Gives r h = exactly-Gives r.buffer r.arriving h.plain h.content

take-drop : (n : ℕ) (xs : Bytes) → take n xs ++ drop n xs ≡ xs
take-drop zero xs = refl
take-drop (suc n) [] = refl
take-drop (suc n) (x ∷ xs) = rw (take-drop n xs)

take_all : (n : ℕ) (xs : Bytes) → length xs ≤ n → take n xs ≡ xs
take_all zero [] h = refl
take_all zero (x ∷ xs) h = absurd (omega arith)
take_all (suc n) [] h = refl
take_all (suc n) (x ∷ xs) h = rw (take_all n xs (omega arith))

drop_all : (n : ℕ) (xs : Bytes) → length xs ≤ n → drop n xs ≡ []
drop_all zero [] h = refl
drop_all zero (x ∷ xs) h = absurd (omega arith)
drop_all (suc n) [] h = refl
drop_all (suc n) (x ∷ xs) h = drop_all n xs (omega arith)

-- What `read` gives of bytes that are on their way: some of them, one at least.
record Piece (xs rest : Bytes) (y : Ending Bytes × Reader) : Type 0 where
  pub piece : Bytes
  pub more : Bytes
  pub reader : Reader
  pub whole : piece ++ more ≡ xs
  pub is_some : 0 < length piece
  pub gives : y ≡ (returned piece, reader)
  pub left : Holds reader (more ++ rest)

module _ (xs rest : Bytes) where
  give-Piece :
      (buffer : Bytes) (events : List Event)
      → IsPlain events
      → buffer ++ incoming events ≡ xs ++ rest
      → 0 < length buffer
      → 0 < length xs
      → Piece xs rest (give (length xs) buffer events)
  give-Piece buffer events plain e some_read some_wanted =
      elim (dec_le (length xs) (length buffer)) [
        | yes h ↦
            let (r, g, k) = give-Gives xs rest buffer events plain e h in
            record {
              piece = xs;
              more = [];
              reader = r;
              whole = append-nil xs;
              is_some = some_wanted;
              gives = g;
              left = k;
            }
        | no h ↦
            let t = take_part buffer (incoming events) xs rest (sym e) (omega arith) in
            record {
              piece = buffer;
              more = drop (length buffer) xs;
              reader = record { buffer = []; arriving = events };
              whole =
                  ap (λ b. b ++ drop (length buffer) xs) (sym t.0) ∙ take-drop (length buffer) xs;
              is_some = some_read;
              gives = rw (
                take_all (length xs) buffer (omega arith),
                drop_all (length xs) buffer (omega arith),
              );
              left = record { plain = plain; content = sym t.1 };
            }
      ]

  some_of-Piece :
      (buffer : Bytes) (events : List Event)
      → IsPlain events
      → buffer ++ incoming events ≡ xs ++ rest
      → 0 < length xs
      → Piece xs rest (some_of (length xs) buffer events)
  unfolding some_of
  some_of-Piece (c ∷ b) events plain e h = give-Piece (c ∷ b) events plain e (omega arith) h
  some_of-Piece [] [] plain e h = absurd (omega (arith, ap length e, length-append xs rest))
  some_of-Piece [] (received b ∷ events) plain e h = some_of-Piece b events plain e h
  some_of-Piece [] (timed_out ∷ events) plain e h = absurd plain
  some_of-Piece [] (handshake x ∷ events) plain e h = absurd plain
  some_of-Piece [] (eof ∷ events) plain e h = absurd plain

is_empty-some : (b : Bytes) → 0 < length b → is_empty b ≡ false
is_empty-some [] h = absurd (omega arith)
is_empty-some (c ∷ b) h = refl

pub ltb-le : (m n : ℕ) → n ≤ m → ltb m n ≡ false
ltb-le m n h = ground arith

-- Filling a field's buffer takes exactly what is wanted, in as many pieces as it arrives.
fill-Gives :
    (fuel : ℕ) (name : Text) (xs rest buf : Bytes) (r : Reader)
    → length xs ≤ fuel
    → Holds r (xs ++ rest)
    → Gives (fill fuel name (length xs) buf r) (buf ++ xs) rest
unfolding fill ◌>>=◌ pure read_some
fill-Gives fuel name [] rest buf r h k = (r, rw (append-nil buf), k)
fill-Gives zero name (x ∷ xs) rest buf r h k = absurd (omega arith)
fill-Gives (suc fuel) name (x ∷ xs) rest buf r h k =
    let p = some_of-Piece (x ∷ xs) rest r.buffer r.arriving k.plain k.content (omega arith) in
    let size = ap length p.whole in
    let (r', e, left) =
      fill-Gives fuel name p.more rest (buf ++ p.piece) p.reader
        (omega (arith, size, p.is_some, length-append p.piece p.more)) p.left in
    let n : suc (length xs) - length p.piece ≡ length p.more =
      omega (arith, size, length-append p.piece p.more) in
    let fits : length p.piece ≤ suc (length xs) =
      omega (arith, size, length-append p.piece p.more) in
    (
      r',
      rw p.gives (
          rw (is_empty-some p.piece p.is_some, ltb-le (suc (length xs)) (length p.piece) fits, n)
            (e
              ∙ ap (λ (b : Bytes). (returned b, r'))
                  (append_assoc buf p.piece p.more ∙ ap (λ b. buf ++ b) p.whole))),
      left,
    )

-- A field is read whole, however its bytes arrive, and what follows it is left.
pub read_rest-Gives :
    (name : Text) (buf xs rest : Bytes) (r : Reader) (len : ℕ)
    → length buf + length xs ≡ len
    → Holds r (xs ++ rest)
    → Gives (read_rest name buf len r) (buf ++ xs, []) rest
unfolding read_rest ◌>>=◌ pure
read_rest-Gives name buf xs rest r len h k =
    let (r', e, left) = fill-Gives (length xs) name xs rest buf r (omega arith) k in
    let n : len - length buf ≡ length xs = omega (arith, h) in
    let fits : length (buf ++ xs) ≤ len = omega (arith, h, length-append buf xs) in
    (r', rw (n, e, take_all len (buf ++ xs) fits, drop_all len (buf ++ xs) fits), left)
