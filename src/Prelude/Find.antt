-- ===== src/Prelude/Find.antt =====
-- Where `find` finds a separator in a text that is extended.
use aiosmtpd.Prelude.{ℕ, zero, suc, ◌+◌, ◌≤◌, ◌≡◌, refl, inl, inr, true, some, [], ◌∷◌, ◌++◌, arith}
use mathlib.Core.List.{reverse-append}
use aiosmtpd.Prelude.Tests.{Option-cases}
use aiosmtpd.Prelude.Lists.{length, take, drop}
use aiosmtpd.Prelude.Text.{Text, Bytes, crlf, starts_with, ends_with, find}

pub starts_with-length : (p t : Text) → starts_with p t ≡ true → length p ≤ length t
unfolding starts_with
starts_with-length [] t h = omega arith
starts_with-length (x ∷ p) [] h = cc
starts_with-length (x ∷ p) (y ∷ t) h = ground (arith, starts_with-length p t)

pub starts_with-append :
    (p t u : Text) → length p ≤ length t → starts_with p (t ++ u) ≡ starts_with p t
unfolding starts_with
starts_with-append [] t u h = refl
starts_with-append (x ∷ p) [] u h = absurd (omega arith)
starts_with-append (x ∷ p) (y ∷ t) u h = rw (starts_with-append p t u (omega arith))

pub find-bound : (sub t : Text) (n : ℕ) → find sub t ≡ some n → n + length sub ≤ length t
unfolding find
find-bound sub [] n h = ground (arith, starts_with-length sub [])
find-bound sub (x ∷ t) n h = elim (Option-cases (find sub t)) [
  | inl e ↦ ground (arith, starts_with-length sub (x ∷ t))
  | inr (m, e) ↦ ground (arith, starts_with-length sub (x ∷ t), find-bound sub t m e)
]

module _ (c : ℕ) (sub : Text) where
  -- What is found stays where it is when the text grows.
  pub find-append :
      (t u : Text) (n : ℕ) → find (c ∷ sub) t ≡ some n → find (c ∷ sub) (t ++ u) ≡ some n
  unfolding find
  find-append [] u n h = ground (arith, starts_with-length (c ∷ sub) [])
  find-append (x ∷ t) u n h = elim (Option-cases (find (c ∷ sub) t)) [
    | inl e ↦
        ground (arith, starts_with-length (c ∷ sub) (x ∷ t), starts_with-append (c ∷ sub) (x ∷ t) u)
    | inr (m, e) ↦ ground (
      arith,
      find-bound (c ∷ sub) t m e,
      starts_with-length (c ∷ sub) (x ∷ t),
      starts_with-append (c ∷ sub) (x ∷ t) u,
      find-append t u m e,
    )
  ]

  -- What is found and ends within a part is found in the part.
  pub find-restrict :
      (t u : Text) (n : ℕ)
      → find (c ∷ sub) (t ++ u) ≡ some n
      → n + length (c ∷ sub) ≤ length t
      → find (c ∷ sub) t ≡ some n
  unfolding find
  find-restrict [] u n h k = absurd (omega arith)
  find-restrict (x ∷ t) u zero h k = ground (arith, starts_with-append (c ∷ sub) (x ∷ t) u)
  find-restrict (x ∷ t) u (suc n) h k =
      ground (arith, starts_with-append (c ∷ sub) (x ∷ t) u, find-restrict t u n)

-- A line: its end is the first CRLF in it.
abbrev pub IsLine : Bytes → Type 0
IsLine l = find crlf (l ++ crlf) ≡ some (length l)

pub ends_with-crlf : (l : Bytes) → ends_with crlf (l ++ crlf) ≡ true
unfolding ends_with starts_with
ends_with-crlf l = rw (reverse-append l crlf)

pub take-append : (n : ℕ) (xs ys : Bytes) → n ≤ length xs → take n (xs ++ ys) ≡ take n xs
take-append zero xs ys h = refl
take-append (suc n) [] ys h = absurd (omega arith)
take-append (suc n) (x ∷ xs) ys h = rw (take-append n xs ys (omega arith))

pub drop-append : (n : ℕ) (xs ys : Bytes) → n ≤ length xs → drop n (xs ++ ys) ≡ drop n xs ++ ys
drop-append zero xs ys h = refl
drop-append (suc n) [] ys h = absurd (omega arith)
drop-append (suc n) (x ∷ xs) ys h = drop-append n xs ys (omega arith)
