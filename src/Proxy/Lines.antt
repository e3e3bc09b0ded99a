-- ===== src/Proxy/Lines.antt =====
-- What a version 1 header guarantees once it is accepted (`_get_v1` in aiosmtpd/proxy_protocol.py).
use mathlib.Core.Path.{subst}
use aiosmtpd.Prelude.{
  ℕ, ◌≤◌, ◌≡◌, refl, ap, ◌∙◌, ◌⊎◌, inl, inr, Bool, true, false, ◌&&◌, not, Option, none, some, List,
  [], ◌∷◌, ◌++◌, arith,
}
use aiosmtpd.Prelude.Tests.{ltb, ◌==◌, if◌then◌else◌}
use aiosmtpd.Prelude.Lists.{length, is_empty}
use aiosmtpd.Prelude.Text.{Text, Bytes, codes, crlf, text_eq, starts_with, ends_with}
use aiosmtpd.Proxy.Data.{Address, ProxyData, with_error, af_inet, af_inet6, proto_unspec}
use aiosmtpd.Proxy.Reading.{returned, raised, cancelled}
use aiosmtpd.Proxy.V1.{
  Parse, fault, field_of, port_allowed, address_allowed, int_of, bounds_check, ports, is_version,
  addresses_match, addresses, of_family, unknown, proto_field, signature_field, parse_v1,
}

-- Both addresses are there, of the version that the family says.
pub record HasAddresses (d : ProxyData) : Type 0 where
  pub src : Address
  pub dst : Address
  pub src_there : d.src_addr ≡ some src
  pub dst_there : d.dst_addr ≡ some dst
  pub versions :
      (d.family ≡ some af_inet) × (is_version 4 src ≡ true) × (is_version 4 dst ≡ true)
      ⊎ (d.family ≡ some af_inet6) × (is_version 6 src ≡ true) × (is_version 6 dst ≡ true)

-- Data of a TCP connection.
pub record IsTcp (d : ProxyData) : Type 0 where
  pub addresses : HasAddresses d
  pub src_port : ℕ
  pub dst_port : ℕ
  pub src_there : d.src_port ≡ some src_port
  pub dst_there : d.dst_port ≡ some dst_port
  pub src_fits : src_port ≤ 65535
  pub dst_fits : dst_port ≤ 65535

-- Data without an error are those of a TCP connection, or say that nothing is known.
abbrev pub Sound : Parse → Type 0
Sound (returned d) = is_empty d.error ≡ true → IsTcp d ⊎ (d.protocol ≡ some proto_unspec)
Sound (raised e) = Unit
Sound cancelled = Unit

Sound-fault : (m : Text) (d : ProxyData) → is_empty m ≡ false → Sound (fault m d)
unfolding with_error
Sound-fault m d h e = cc

Sound-if :
    (b : Bool) (y z : Parse)
    → (b ≡ true → Sound y)
    → (b ≡ false → Sound z)
    → Sound (if b then y else z)
Sound-if true y z f g = f refl
Sound-if false y z f g = g refl

Sound-field_of :
    {A : Type 0} (matcher : Text → Bool) (convert : Text → Option A) (m : Text) (d : ProxyData)
    (parts : List Bytes) (next : A → List Bytes → Parse)
    → is_empty m ≡ false
    → ((a : A) (rest : List Bytes) → Sound (next a rest))
    → Sound (field_of matcher convert m d parts next)
unfolding field_of
Sound-field_of matcher convert m d [] next h f = tt
Sound-field_of {A} matcher convert m d (chunk ∷ parts) next h f = matched (matcher chunk)
  where
    converted : (o : Option A) → Sound (elim o [ none ↦ fault m d | some a ↦ next a parts ])
    converted none = Sound-fault m d h
    converted (some a) = f a parts

    matched :
        (b : Bool)
        → Sound (elim b [
          | false ↦ fault m d
          | true ↦ elim (convert chunk) [ none ↦ fault m d | some a ↦ next a parts ]
        ])
    matched false = Sound-fault m d h
    matched true = converted (convert chunk)

Sound-bounds :
    (d : ProxyData) (src dst : ℕ) (parts : List Bytes)
    → HasAddresses d
    → Sound (bounds_check (record d { src_port = some src; dst_port = some dst }) src dst parts)
unfolding bounds_check codes
Sound-bounds d src dst parts h =
    Sound-if (ltb 65535 src) _ _ (λ e. Sound-fault _ _ refl)
      λ s.
        Sound-if (ltb 65535 dst) _ _ (λ e. Sound-fault _ _ refl)
          λ t.
            Sound-if (not (is_empty parts)) _ _ (λ e. Sound-fault _ _ refl)
              λ u e. inl (record {
                addresses = record {
                  src = h.src;
                  dst = h.dst;
                  src_there = h.src_there;
                  dst_there = h.dst_there;
                  versions = h.versions;
                };
                src_port = src;
                dst_port = dst;
                src_there = refl;
                dst_there = refl;
                src_fits = ground (arith, s);
                dst_fits = ground (arith, t);
              })

Sound-ports : (d : ProxyData) (parts : List Bytes) → HasAddresses d → Sound (ports d parts)
unfolding ports codes
Sound-ports d parts h = Sound-field_of port_allowed int_of _ d parts _ refl λ src rest.
    Sound-field_of port_allowed int_of _ _ rest _ refl λ dst more. Sound-bounds d src dst more h

Sound-addresses_match :
    (af : ℕ) (src dst : Address) (d : ProxyData) (parts : List Bytes)
    → (af ≡ af_inet) ⊎ (af ≡ af_inet6)
    → d.family ≡ some af
    → Sound (addresses_match af src dst d parts)
unfolding addresses_match codes
Sound-addresses_match af src dst d parts which family =
    Sound-if (af == af_inet && not (is_version 4 src && is_version 4 dst)) _ _
      (λ e. Sound-fault _ _ refl)
      λ s.
        Sound-if (af == af_inet6 && not (is_version 6 src && is_version 6 dst)) _ _
          (λ e. Sound-fault _ _ refl)
          λ t. Sound-ports _ parts (record {
            src = src;
            dst = dst;
            src_there = refl;
            dst_there = refl;
            versions = elim which [
              | inl e ↦ inl (family ∙ ap some e, ground arith, ground arith)
              | inr e ↦ inr (family ∙ ap some e, ground arith, ground arith)
            ];
          })

module _ (ip_address : Text → Option Address) where
  Sound-addresses :
      (af : ℕ) (d : ProxyData) (parts : List Bytes)
      → (af ≡ af_inet) ⊎ (af ≡ af_inet6)
      → d.family ≡ some af
      → Sound (addresses ip_address af d parts)
  unfolding addresses codes
  Sound-addresses af d parts which family =
      Sound-field_of address_allowed ip_address _ d parts _ refl λ src rest.
        Sound-field_of address_allowed ip_address _ d rest _ refl
          λ dst more. Sound-addresses_match af src dst d more which family

  Sound-of_family :
      (af : ℕ) (proto : Bytes) (d : ProxyData) (parts : List Bytes)
      → (af ≡ af_inet) ⊎ (af ≡ af_inet6)
      → Sound (of_family ip_address af proto d parts)
  unfolding of_family codes
  Sound-of_family af proto d parts which =
      Sound-if (not (starts_with (codes "TCP") proto)) _ _ (λ e. Sound-fault _ _ refl)
        (λ e. Sound-addresses af _ parts which refl)

  Sound-unknown : (d : ProxyData) (parts : List Bytes) → Sound (unknown ip_address d parts)
  unfolding unknown
  Sound-unknown d parts e = inr refl

  Sound-proto : (d : ProxyData) (parts : List Bytes) → Sound (proto_field ip_address d parts)
  unfolding proto_field codes
  Sound-proto d [] = tt
  Sound-proto d (proto ∷ parts) =
      Sound-if (text_eq proto (codes "UNKNOWN")) _ _ (λ e. Sound-unknown d parts)
        λ e.
          Sound-if (ends_with (codes "4") proto) _ _
            (λ f. Sound-of_family af_inet proto d parts (inl refl))
            λ f.
              Sound-if (ends_with (codes "6") proto) _ _
                (λ g. Sound-of_family af_inet6 proto d parts (inr refl)) (λ g. Sound-fault _ _ refl)

  Sound-signature :
      (d : ProxyData) (parts : List Bytes) → Sound (signature_field ip_address d parts)
  unfolding signature_field codes
  Sound-signature d [] = tt
  Sound-signature d (signature ∷ parts) =
      Sound-if (is_empty signature) _ _ (λ e. Sound-proto d parts) (λ e. Sound-fault _ _ refl)

  Sound-parse_v1 : (initial data_ : Bytes) → Sound (parse_v1 ip_address initial data_)
  unfolding parse_v1 codes
  Sound-parse_v1 initial data_ =
      Sound-if (ltb 107 (length (initial ++ data_))) _ _ (λ e. Sound-fault _ _ refl)
        λ e.
          Sound-if (not (ends_with crlf data_)) _ _ (λ f. Sound-fault _ _ refl)
            (λ f. Sound-signature _ _)

  -- If the line of a version 1 header is read without an error, then it says that nothing is known of
  -- the connection, or it gives a source and a destination, both of the version of IP that its
  -- protocol says, and two ports below 2 ^ 16.
  pub parse_v1-IsTcp :
      (initial data_ : Bytes) (d : ProxyData)
      → parse_v1 ip_address initial data_ ≡ returned d
      → is_empty d.error ≡ true
      → IsTcp d ⊎ (d.protocol ≡ some proto_unspec)
  parse_v1-IsTcp initial data_ d e = subst Sound e (Sound-parse_v1 initial data_)
