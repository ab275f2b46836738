-- ===== src/Http/Strings.antt =====
-- What the string functions that `try_extract_http` calls return.
use hyper_dpi.Prelude.{
  ℕ, ◌-◌, ◌≡◌, refl, ap, ◌∙◌, Bool, true, false, ◌==◌, some, Bool-cases, inl, inr, [], ◌∷◌, ◌++◌,
  Bytes, length, take, length-append, arith, sym, some_inj, ◌≢◌,
}
use hyper_dpi.Http.{starts_with, starts_with_ci, strchr, strstr, find_ci, skip_spaces}

-- No byte of the text is `c`.
abbrev pub Avoids : ℕ → Bytes → Type 0
Avoids c [] = Unit {0}
Avoids c (x ∷ xs) = ((x == c) ≡ false) × Avoids c xs

-- Every byte of the text is `c`.
abbrev pub Repeats : ℕ → Bytes → Type 0
Repeats c [] = Unit {0}
Repeats c (x ∷ xs) = (x ≡ c) × Repeats c xs

-- No position of `pre`, which stands before `rest`, starts with a match.
abbrev pub Clear : (Bytes → Bool) → Bytes → Bytes → Type 0
Clear matches [] rest = Unit {0}
Clear matches (c ∷ cs) rest = (matches (c ∷ (cs ++ rest)) ≡ false) × Clear matches cs rest

-- The first `c` of `s` stands behind `pre` and before `rest`.
pub record FirstByte (c : ℕ) (s r : Bytes) : Type 0 where
  pub pre : Bytes
  pub rest : Bytes
  pub splits : s ≡ pre ++ c ∷ rest
  pub points : r ≡ c ∷ rest
  pub avoids : Avoids c pre

-- The first match in `s` is `r`, behind `pre`.
pub record FirstMatch (matches : Bytes → Bool) (s r : Bytes) : Type 0 where
  pub pre : Bytes
  pub splits : s ≡ pre ++ r
  pub here : matches r ≡ true
  pub first : Clear matches pre r

pub strchr-FirstByte : (s : Bytes) (c : ℕ) {r : Bytes} → strchr s c ≡ some r → FirstByte c s r
unfolding strchr
strchr-FirstByte [] c e = cc
strchr-FirstByte (x ∷ xs) c e = elim (Bool-cases (x == c)) [
  | inl same ↦ record {
    pre = [];
    rest = xs;
    splits = ap (λ y. y ∷ xs) (ground arith);
    points = ground arith;
    avoids = tt;
  }
  | inr differs ↦
      let f = strchr-FirstByte xs c (rw differs at e) in
      record {
        pre = x ∷ f.pre;
        rest = f.rest;
        splits = ap (◌∷◌ x) f.splits;
        points = f.points;
        avoids = (differs, f.avoids);
      }
]

-- The converse: a text with a first `c` is searched with success.
pub strchr-append :
    (pre rest : Bytes) (c : ℕ) → Avoids c pre → strchr (pre ++ c ∷ rest) c ≡ some (c ∷ rest)
unfolding strchr
strchr-append [] rest c a = ground arith
strchr-append (x ∷ xs) rest c (d, a) = rw d (strchr-append xs rest c a)

module _ (needle : Bytes) where
  pub strstr-FirstMatch :
      (s : Bytes) {r : Bytes}
      → strstr s needle ≡ some r
      → FirstMatch (λ t. starts_with t needle) s r
  unfolding strstr
  strstr-FirstMatch [] e = cc
  strstr-FirstMatch (c ∷ cs) e = elim (Bool-cases (starts_with (c ∷ cs) needle)) [
    | inl here ↦ record {
      pre = [];
      splits = some_inj (rw here at e);
      here = rw (← some_inj (rw here at e)) here;
      first = tt;
    }
    | inr later ↦
        let f = strstr-FirstMatch cs (rw later at e) in
        record {
          pre = c ∷ f.pre;
          splits = ap (◌∷◌ c) f.splits;
          here = f.here;
          first = (ap (λ t. starts_with (c ∷ t) needle) (sym f.splits) ∙ later, f.first);
        }
  ]

  pub strstr-append :
      (pre rest : Bytes)
      → rest ≢ []
      → Clear (λ t. starts_with t needle) pre rest
      → starts_with rest needle ≡ true
      → strstr (pre ++ rest) needle ≡ some rest
  unfolding strstr
  strstr-append [] [] ne f h = absurd (ne refl)
  strstr-append [] (c ∷ cs) ne f h = rw h
  strstr-append (c ∷ cs) rest ne (d, f) h = rw d (strstr-append cs rest ne f h)

  pub find_ci-FirstMatch :
      (s : Bytes) {r : Bytes}
      → find_ci s needle ≡ some r
      → FirstMatch (λ t. starts_with_ci t needle) s r
  unfolding find_ci
  find_ci-FirstMatch [] e = cc
  find_ci-FirstMatch (c ∷ cs) e = elim (Bool-cases (starts_with_ci (c ∷ cs) needle)) [
    | inl here ↦ record {
      pre = [];
      splits = some_inj (rw here at e);
      here = rw (← some_inj (rw here at e)) here;
      first = tt;
    }
    | inr later ↦
        let f = find_ci-FirstMatch cs (rw later at e) in
        record {
          pre = c ∷ f.pre;
          splits = ap (◌∷◌ c) f.splits;
          here = f.here;
          first = (ap (λ t. starts_with_ci (c ∷ t) needle) (sym f.splits) ∙ later, f.first);
        }
  ]

  pub find_ci-append :
      (pre rest : Bytes)
      → rest ≢ []
      → Clear (λ t. starts_with_ci t needle) pre rest
      → starts_with_ci rest needle ≡ true
      → find_ci (pre ++ rest) needle ≡ some rest
  unfolding find_ci
  find_ci-append [] [] ne f h = absurd (ne refl)
  find_ci-append [] (c ∷ cs) ne f h = rw h
  find_ci-append (c ∷ cs) rest ne (d, f) h = rw d (find_ci-append cs rest ne f h)

-- Spaces are skipped, and nothing else.
pub record Skipped (s r : Bytes) : Type 0 where
  pub spaces : Bytes
  pub splits : s ≡ spaces ++ r
  pub blank : Repeats b' ' spaces

pub skip_spaces-Skipped : (s : Bytes) → Skipped s (skip_spaces s)
unfolding skip_spaces
skip_spaces-Skipped [] = record { spaces = []; splits = refl; blank = tt }
skip_spaces-Skipped (c ∷ cs) = elim (Bool-cases (c == b' ')) [
  | inl blank ↦
      let f = skip_spaces-Skipped cs in
      rw blank (record {
        spaces = c ∷ f.spaces;
        splits = ap (◌∷◌ c) f.splits;
        blank = (ground arith, f.blank);
      })
  | inr other ↦ rw other (record { spaces = []; splits = refl; blank = tt })
]

pub skip_spaces-append :
    (spaces s : Bytes) → Repeats b' ' spaces → skip_spaces (spaces ++ s) ≡ skip_spaces s
unfolding skip_spaces
skip_spaces-append [] s h = refl
skip_spaces-append (c ∷ cs) s (e, h) = rw e (skip_spaces-append cs s h)

pub take_prefix : (pre r : Bytes) (n : ℕ) → n ≡ length pre → take n (pre ++ r) ≡ pre
take_prefix [] r n e = rw e
take_prefix (x ∷ xs) r n e = rw e (ap (◌∷◌ x) (take_prefix xs r (length xs) refl))

-- A difference of pointers, as a length: it cuts the text at the second pointer.
pub take-append : (pre r : Bytes) → take (length (pre ++ r) - length r) (pre ++ r) ≡ pre
take-append pre r = take_prefix pre r _ (omega (arith, length-append {0} pre r))
