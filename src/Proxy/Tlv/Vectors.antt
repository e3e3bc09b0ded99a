-- ===== src/Proxy/Tlv/Vectors.antt =====
-- `ProxyTLV.parse` reads what a proxy writes, and comes to an end on anything.
use Prim.Native.Nat.{◌/◌, ◌%◌}
use aiosmtpd.Prelude.{
  ℕ, zero, suc, ◌+◌, ◌≤◌, ◌<◌, ◌≡◌, refl, Bool, false, none, some, List, [], ◌∷◌, ◌++◌, arith,
}
use aiosmtpd.Prelude.Tests.{ltb}
use aiosmtpd.Prelude.Lists.{length, length-append, take-length_append, drop-length_append}
use aiosmtpd.Prelude.Text.{Text, Bytes, codes, text_eq}
use aiosmtpd.Proxy.Data.{from_bytes}
use aiosmtpd.Proxy.Tlv.{raw, Parsed, parsed_empty, set_value, set_loc, name_of, pars, parse}

-- A vector: its type, the name of the type, and its value.
pub record Vector : Type 0 where
  pub typ : ℕ
  pub name : Text
  pub val : Bytes

-- How a proxy writes it.
abbrev pub write_vector : Vector → Bytes
write_vector v = v.typ ∷ length v.val / 256 ∷ length v.val % 256 ∷ v.val

abbrev pub write_vectors : List Vector → Bytes
write_vectors [] = []
write_vectors (v ∷ vs) = write_vector v ++ write_vectors vs

-- Vectors that the parser is to know, none of which holds others.
abbrev pub AreKnown : Bool → List Vector → Type 0
AreKnown strict [] = Unit
AreKnown strict (v ∷ vs) =
    (name_of strict v.typ ≡ some v.name)
    × (text_eq v.name (codes "SSL") ≡ false)
    × (length v.val < 65536)
    × AreKnown strict vs

-- What is to be found: each value under its name, with the place where the vector starts. Of two
-- vectors of one type the later one counts.
abbrev pub noted : ℕ → ℕ → List Vector → Parsed → Parsed
noted offset i [] p = p
noted offset i (v ∷ vs) p =
    noted offset (i + 3 + length v.val) vs
      (set_value v.name (raw v.val) (set_loc v.name (offset + i) p))

length-bytes : (n : ℕ) → n < 65536 → from_bytes 0 (n / 256 ∷ n % 256 ∷ []) ≡ n
length-bytes n h = omega arith

ltb_refl : (n : ℕ) → ltb n n ≡ false
ltb_refl n = ground arith

pars-vectors :
    (strict partial_ok : Bool) (vs : List Vector) (fuel offset i : ℕ) (p : Parsed)
    → length vs < fuel
    → AreKnown strict vs
    → pars strict partial_ok fuel offset i (write_vectors vs) p ≡ (none, noted offset i vs p)
unfolding pars
pars-vectors strict partial_ok vs zero offset i p h k = absurd (omega arith)
pars-vectors strict partial_ok [] (suc fuel) offset i p h k = refl
pars-vectors strict partial_ok (v ∷ vs) (suc fuel) offset i p h (named, plain, short, known) =
    rw
      (
        pars,
        length-bytes (length v.val) short,
        take-length_append v.val (write_vectors vs),
        ltb_refl (length v.val),
        named,
        plain,
        length-bytes (length v.val) short,
        take-length_append v.val (write_vectors vs),
        drop-length_append v.val (write_vectors vs),
      )
      (pars-vectors strict partial_ok vs fuel offset (i + 3 + length v.val)
        (set_value v.name (raw v.val) (set_loc v.name (offset + i) p)) (omega arith) known)

write_vectors-length : (vs : List Vector) → length vs ≤ length (write_vectors vs)
write_vectors-length [] = omega arith
write_vectors-length (v ∷ vs) =
    omega (arith, write_vectors-length vs, length-append (write_vector v) (write_vectors vs))

-- Vectors of types that the parser is to know, none of them SSL and each shorter than 2 ^ 16 bytes,
-- are all found in what a proxy writes: each value under the name of its type, with the place where
-- the vector starts, whatever the caller says of unknown types and of malformed vectors.
pub parse-vectors :
    (strict partial_ok : Bool) (vs : List Vector)
    → AreKnown strict vs
    → parse (write_vectors vs) partial_ok strict ≡ (none, noted 0 0 vs parsed_empty)
unfolding parse
parse-vectors strict partial_ok vs known =
    let found =
      pars-vectors strict partial_ok vs (suc (length (write_vectors vs))) 0 0 parsed_empty
        (omega (arith, write_vectors-length vs)) known in
    rw (parse, found) (rw found)
