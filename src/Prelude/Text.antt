-- ===== src/Prelude/Text.antt =====
-- Python's `bytes` and `str` as lists of numbers: bytes, or code points. The operations are those
-- of the two types that aiosmtpd calls; those that ask the Unicode database take the test as an
-- argument.
use Prim.Native.Nat.{ℕ, zero, suc, ◌+◌, ◌-◌, ◌*◌}
use Prim.Native.Char.{code}
use Prim.Native.String.{String}
use mathlib.Core.Path.{◌≡◌, refl}
use mathlib.Core.Logic.{◌↔◌}
use mathlib.Core.Bool.{Bool, true, false, ◌&&◌, ◌||◌}
use mathlib.Core.Option
use mathlib.Core.Option.{Option, none, some}
use mathlib.Core.List.{List, [], ◌∷◌, ◌++◌, reverse}
use native.Mathlib.Omega.{arith}
use aiosmtpd.Prelude.Tests.{ltb, leb, ◌==◌, if◌then◌else◌}

abbrev pub Text : Type 0
Text = List ℕ

abbrev pub Bytes : Type 0
Bytes = List ℕ

-- A literal. Shut, so that proofs carry a literal and not its characters.
unfoldable pub codes : String → Text
codes String.[] = []
codes (String.◌∷◌ c s) = code c ∷ codes s

-- `==` of two texts
unfoldable pub text_eq : Text → Text → Bool
text_eq [] [] = true
text_eq (x ∷ xs) (y ∷ ys) = x == y && text_eq xs ys
text_eq _ _ = false

pub text_eq_iff : (s t : Text) → (text_eq s t ≡ true) ↔ (s ≡ t)
unfolding text_eq
text_eq_iff [] [] = ((λ _. refl), (λ _. refl))
text_eq_iff (x ∷ xs) (y ∷ ys) = ground (arith, text_eq_iff xs ys)
text_eq_iff [] (y ∷ ys) = ((λ h. cc), (λ h. cc))
text_eq_iff (x ∷ xs) [] = ((λ h. cc), (λ h. cc))

pub text_eq_refl : (s : Text) → text_eq s s ≡ true
text_eq_refl s = (text_eq_iff s s).1 refl

-- `in` a collection of texts
unfoldable pub contains : List Text → Text → Bool
contains [] t = false
contains (x ∷ xs) t = text_eq t x || contains xs t

unfoldable pub starts_with : Text → Text → Bool
starts_with [] t = true
starts_with (p ∷ ps) [] = false
starts_with (p ∷ ps) (x ∷ xs) = p == x && starts_with ps xs

unfoldable pub ends_with : Text → Text → Bool
unfolding starts_with
ends_with p t = starts_with (reverse p) (reverse t)

-- `find`, with `none` for -1
unfoldable pub find : Text → Text → Option ℕ
unfolding starts_with
find sub [] = if starts_with sub [] then some 0 else none
find sub (x ∷ xs) = if starts_with sub (x ∷ xs) then some 0 else Option.map suc (find sub xs)

-- `partition(c)` for one character: before, whether it is there, after
unfoldable pub partition : ℕ → Text → Text × Bool × Text
partition c [] = ([], false, [])
partition c (x ∷ xs) =
    let (a, found, b) = partition c xs in if x == c then ([], true, xs) else (x ∷ a, found, b)

unfoldable pub lstrip : (ℕ → Bool) → Text → Text
lstrip p [] = []
lstrip p (x ∷ xs) = if p x then lstrip p xs else x ∷ xs

unfoldable pub rstrip : (ℕ → Bool) → Text → Text
unfolding lstrip
rstrip p t = reverse (lstrip p (reverse t))

unfoldable pub strip : (ℕ → Bool) → Text → Text
unfolding lstrip rstrip
strip p t = rstrip p (lstrip p t)

-- `split()`: the runs of characters that are not spaces; `word` is the run being read
unfoldable pub split_from : (ℕ → Bool) → Text → Text → List Text
split_from p word [] = elim word [ [] ↦ [] | c ∷ w ↦ reverse (c ∷ w) ∷ [] ]
split_from p word (x ∷ xs) =
    let rest = split_from p [] xs in
    let longer = split_from p (x ∷ word) xs in
    if p x then elim word [ [] ↦ rest | c ∷ w ↦ reverse (c ∷ w) ∷ rest ] else longer

unfoldable pub split : (ℕ → Bool) → Text → List Text
unfolding split_from
split p t = split_from p [] t

-- `split(b"c")`: the fields between the separators, empty ones too
unfoldable pub split_on : ℕ → Text → List Text
split_on c [] = [] ∷ []
split_on c (x ∷ xs) =
    let fields = split_on c xs in
    if x == c then [] ∷ fields else elim fields [ [] ↦ (x ∷ []) ∷ [] | w ∷ ws ↦ (x ∷ w) ∷ ws ]

-- `c.join(parts)`
unfoldable pub join : Text → List Text → Text
join c [] = []
join c (x ∷ xs) = elim xs [ [] ↦ x | y ∷ ys ↦ x ++ c ++ join c xs ]

-- `bytes.upper`, on one byte
unfoldable pub upper_ascii : ℕ → ℕ
upper_ascii c = if leb 97 c && leb c 122 then c - 32 else c

-- the spaces of `bytes.strip`
unfoldable pub is_space_byte : ℕ → Bool
is_space_byte c = c == 32 || (leb 9 c && leb c 13)

unfoldable pub is_ascii : Text → Bool
is_ascii [] = true
is_ascii (x ∷ xs) = ltb x 128 && is_ascii xs

abbrev pub crlf : Bytes
crlf = 13 ∷ 10 ∷ []

-- `str(n)` for a natural number, with enough fuel; `decimal` passes one more than the number
unfoldable pub decimal_from : ℕ → ℕ → Text → Text
decimal_from zero n acc = acc
decimal_from (suc f) n acc =
    let digit = 48 + Prim.Native.Nat.◌%◌ n 10 in
    let rest = decimal_from f (Prim.Native.Nat.◌/◌ n 10) (digit ∷ acc) in
    if ltb n 10 then digit ∷ acc else rest

unfoldable pub decimal : ℕ → Text
unfolding decimal_from
decimal n = decimal_from (suc n) n []

-- A dictionary keyed by texts, in insertion order.
abbrev pub Dict {ℓ} : Type ℓ → Type ℓ
Dict V = List (Text × V)

module _ {ℓ} {V : Type ℓ} where
  unfoldable pub get : Text → Dict V → Option V
  get k [] = none
  get k ((j, v) ∷ d) = if text_eq j k then some v else get k d

  -- `d[k] = v`
  unfoldable pub put : Text → V → Dict V → Dict V
  put k v [] = (k, v) ∷ []
  put k v ((j, w) ∷ d) = if text_eq j k then (j, v) ∷ d else (j, w) ∷ put k v d

  -- `d.pop(k, …)`, the dictionary that is left
  unfoldable pub remove : Text → Dict V → Dict V
  remove k [] = []
  remove k ((j, w) ∷ d) = if text_eq j k then d else (j, w) ∷ remove k d

  pub get-put :
      (k j : Text) (v : V) (d : Dict V)
      → get j (put k v d) ≡ (if text_eq k j then some v else get j d)
  unfolding get put
  get-put k j v [] = refl
  get-put k j v ((i, w) ∷ d) =
      ground (arith, text_eq_iff i k, text_eq_iff i j, text_eq_iff k j, get-put k j v d)

-- Python's order of texts, and `sorted`
unfoldable pub text_le : Text → Text → Bool
text_le [] t = true
text_le (x ∷ xs) [] = false
text_le (x ∷ xs) (y ∷ ys) = ltb x y || (x == y && text_le xs ys)

unfoldable pub insert_sorted : Text → List Text → List Text
insert_sorted t [] = t ∷ []
insert_sorted t (u ∷ us) = if text_le t u then t ∷ u ∷ us else u ∷ insert_sorted t us

unfoldable pub sorted : List Text → List Text
unfolding insert_sorted text_le
sorted [] = []
sorted (t ∷ ts) = insert_sorted t (sorted ts)
