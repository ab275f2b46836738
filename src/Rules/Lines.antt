-- ===== src/Rules/Lines.antt =====
-- Reading a rule file line by line.
use hyper_dpi.Prelude.{
  ℕ, zero, suc, ◌≤◌, ◌<◌, ◌≡◌, ◌-◌, refl, ap, ◌∙◌, ◌==◌, Bool-cases, inl, inr, List, [], ◌∷◌, ◌++◌,
  Bytes, length, length-append, arith,
}
use hyper_dpi.Http.Strings.{Avoids}
use hyper_dpi.Rules.{fgets, read_lines, linebuf_cap}

abbrev pub concat : List Bytes → Bytes
concat [] = []
concat (l ∷ ls) = l ++ concat ls

-- `fgets` splits its input; it takes at most the bytes that there is room for, and one at least.
fgets-append : (n : ℕ) (s : Bytes) → (fgets n s).0 ++ (fgets n s).1 ≡ s
unfolding fgets
fgets-append zero s = refl
fgets-append (suc n) [] = refl
fgets-append (suc n) (c ∷ cs) = elim (Bool-cases (c == 10)) [
  | inl newline ↦ rw newline
  | inr other ↦ rw other (ap (◌∷◌ c) (fgets-append n cs))
]

length-fgets : (n : ℕ) (s : Bytes) → length (fgets n s).0 ≤ n
unfolding fgets
length-fgets zero s = omega arith
length-fgets (suc n) [] = omega arith
length-fgets (suc n) (c ∷ cs) = ground (arith, length-fgets n cs)

fgets_shrinks : (n : ℕ) (c : ℕ) (cs : Bytes) → length (fgets (suc n) (c ∷ cs)).1 ≤ length cs
unfolding fgets
fgets_shrinks n c cs = elim (Bool-cases (c == 10)) [
  | inl newline ↦ rw newline (omega arith)
  | inr other ↦ rw other (
      omega (
        arith,
        ap (length {A = ℕ}) (fgets-append n cs),
        length-append {0} (fgets n cs).0 (fgets n cs).1,
      ))
]

-- Every line fits the buffer.
abbrev pub AllShort : List Bytes → Type 0
AllShort [] = Unit {0}
AllShort (l ∷ ls) = (length l ≤ linebuf_cap - 1) × AllShort ls

read_lines-split :
    (n : ℕ) (s : Bytes) → length s < n → (concat (read_lines n s) ≡ s) × AllShort (read_lines n s)
unfolding read_lines
read_lines-split zero s h = absurd (omega arith)
read_lines-split (suc n) [] h = (refl, tt)
read_lines-split (suc n) (c ∷ cs) h =
    let line = (fgets 511 (c ∷ cs)).0 in
    let rest = (fgets 511 (c ∷ cs)).1 in
    let ih = read_lines-split n rest (omega (arith, fgets_shrinks 510 c cs)) in
    (ap (λ t. line ++ t) ih.0 ∙ fgets-append 511 (c ∷ cs), (length-fgets 511 (c ∷ cs), ih.1))

-- The reading loop loses no byte of the file: its lines, one after the other, are the file, and
-- each fits into the buffer of 512 bytes with its NUL. The bound on the number of lines is enough.
pub read_lines_lem :
    (file : Bytes)
    → let lines = read_lines (suc (length file)) file in (concat lines ≡ file) × AllShort lines
read_lines_lem file = read_lines-split (suc (length file)) file (omega arith)

pub fgets_newline :
    (n : ℕ) (line rest : Bytes)
    → Avoids 10 line
    → length line < n
    → fgets n (line ++ 10 ∷ rest) ≡ (line ++ 10 ∷ [], rest)
unfolding fgets
fgets_newline zero line rest a h = absurd (omega arith)
fgets_newline (suc n) [] rest a h = refl
fgets_newline (suc n) (c ∷ cs) rest (d, a) h = rw (d, fgets_newline n cs rest a (omega arith))
