-- ===== src/Proxy/Tlv/Names.antt =====
-- The names of TLV types: `name_to_num` undoes `PP2_TYPENAME` (aiosmtpd/proxy_protocol.py).
use aiosmtpd.Prelude.{ℕ, ◌≡◌, refl, Bool, true, false, ◌&&◌, not, some, List, [], ◌∷◌, arith}
use aiosmtpd.Prelude.Text.{Text, codes, text_eq, text_eq_refl}
use aiosmtpd.Proxy.Tlv.{pp2_typename, typename_in, num_in, name_to_num}

-- Whether a name differs from all names of a table, and whether all names of a table differ.
abbrev is_new : Text → List (ℕ × Text) → Bool
is_new name [] = true
is_new name ((k, v) ∷ rest) = not (text_eq v name) && is_new name rest

abbrev are_distinct : List (ℕ × Text) → Bool
are_distinct [] = true
are_distinct ((k, v) ∷ rest) = is_new v rest && are_distinct rest

found-differs :
    (table : List (ℕ × Text)) (v name : Text) (typ : ℕ)
    → is_new v table ≡ true
    → typename_in table typ ≡ some name
    → text_eq name v ≡ false
unfolding typename_in
found-differs [] v name typ new h = cc
found-differs ((k, w) ∷ rest) v name typ new h = ground (arith, found-differs rest v name typ)

num_in-typename_in :
    (table : List (ℕ × Text)) (name : Text) (typ : ℕ)
    → are_distinct table ≡ true
    → typename_in table typ ≡ some name
    → num_in table name ≡ some typ
unfolding typename_in num_in
num_in-typename_in [] name typ d h = cc
num_in-typename_in ((k, w) ∷ rest) name typ d h =
    ground (arith, num_in-typename_in rest name typ, found-differs rest w name typ, text_eq_refl w)

-- The number of the name of a type is the type, for each type that has a name.
pub name_to_num-typename :
    (name : Text) (typ : ℕ) → typename_in pp2_typename typ ≡ some name → name_to_num name ≡ some typ
unfolding name_to_num codes text_eq
name_to_num-typename name typ h = num_in-typename_in pp2_typename name typ refl h
