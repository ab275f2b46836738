-- ===== src/Rules/File.antt =====
-- A file of rules is read back whole.
use hyper_dpi.Prelude.{
  ℕ, zero, suc, ◌<◌, ◌≡◌, refl, sym, ap, ◌∙◌, Bool, true, ◌==◌, Bool-cases, inl, inr, some, List,
  [], ◌∷◌, ◌++◌, Bytes, length, length-append, arith, u32, ◌*◌, if◌then◌else◌,
}
use hyper_dpi.Rules.{
  RuleLine, RuleArray, no_rules, read_lines, reserve, store, load_line, load_lines, read_rules,
}
use mathlib.Core.List.{append-nil, append_assoc}
use hyper_dpi.Http.Strings.{Avoids}
use hyper_dpi.Rules.Lines.{fgets_newline}
use hyper_dpi.Rules.Parse.{IsRule, parse_line-print_rule, print_rule, print_action}
use hyper_dpi.Rules.Print.{
  length-print_rule, print_rule-Avoids, line-print_rule, is_skipped-print_type,
}

-- A file of rules, one to a line.
abbrev pub print_file : List RuleLine → Bytes
print_file [] = []
print_file (r ∷ rs) = print_rule r ++ 10 ∷ print_file rs

abbrev pub AllRules : List RuleLine → Type 0
AllRules [] = Unit {0}
AllRules (r ∷ rs) = IsRule r × Avoids 10 r.pattern × Avoids 0 r.pattern × AllRules rs

abbrev print_lines : List RuleLine → List Bytes
print_lines [] = []
print_lines (r ∷ rs) = (print_rule r ++ 10 ∷ []) ∷ print_lines rs

read_lines_newline :
    (n : ℕ) (line rest : Bytes)
    → Avoids 10 line
    → length line < 511
    → read_lines (suc n) (line ++ 10 ∷ rest) ≡ (line ++ 10 ∷ []) ∷ read_lines n rest
unfolding read_lines
read_lines_newline n [] rest a h = rw (fgets_newline 511 [] rest a h) refl
read_lines_newline n (c ∷ cs) rest a h = rw (fgets_newline 511 (c ∷ cs) rest a h) refl

read_lines-print_file :
    (n : ℕ) (rs : List RuleLine)
    → AllRules rs
    → length (print_file rs) < n
    → read_lines n (print_file rs) ≡ print_lines rs
unfolding read_lines
read_lines-print_file zero rs v h = absurd (omega arith)
read_lines-print_file (suc n) [] v h = refl
read_lines-print_file (suc n) (r ∷ rs) (v, a, z, vs) h =
    read_lines_newline n (print_rule r) (print_file rs) (print_rule-Avoids 10 (omega arith) r a)
      (length-print_rule r v)
    ∙ ap (◌∷◌ (print_rule r ++ 10 ∷ [])) (
        read_lines-print_file n rs vs
          (omega (arith, h, length-append {0} (print_rule r) (10 ∷ print_file rs))))

module _ (realloc_ok : ℕ → Bool) (granted : (n : ℕ) → realloc_ok n ≡ true) where
  reserve_granted :
      (a : RuleArray) → (b : RuleArray) × (reserve realloc_ok a ≡ some b) × (b.lines ≡ a.lines)
  unfolding reserve
  reserve_granted a = elim (Bool-cases (length a.lines == a.cap)) [
    | inl full ↦
        let cap = if a.cap == 0 then 16 else u32 (a.cap * 2) in
        (record a { cap = cap }, rw (full, granted cap) refl, refl)
    | inr room ↦ (a, rw room refl, refl)
  ]

  load_line-print_rule :
      (a : RuleArray) (r : RuleLine)
      → IsRule r
      → Avoids 0 r.pattern
      → (b : RuleArray) × (load_line realloc_ok a (print_rule r ++ 10 ∷ []) ≡ some b)
        × (b.lines ≡ a.lines ++ r ∷ [])
  unfolding load_line store
  load_line-print_rule a r v z =
      let (b, reserved, same) = reserve_granted a in
      let rest = b',' ∷ (r.pattern ++ b',' ∷ print_action r.action) in
      (
        record b { lines = b.lines ++ r ∷ [] },
        rw
            (
              line-print_rule r v z,
              is_skipped-print_type r.type rest v.typed,
              reserved,
              parse_line-print_rule r v,
            )
            refl,
        ap (λ t. t ++ r ∷ []) same,
      )

  load_lines-print_lines :
      (a : RuleArray) (rs : List RuleLine)
      → AllRules rs
      → (b : RuleArray) × (load_lines realloc_ok a (print_lines rs) ≡ some b)
        × (b.lines ≡ a.lines ++ rs)
  unfolding load_lines
  load_lines-print_lines a [] v = (a, refl, sym (append-nil a.lines))
  load_lines-print_lines a (r ∷ rs) (v, n, z, vs) =
      let (b, one, e) = load_line-print_rule a r v z in
      let (c, more, e') = load_lines-print_lines b rs vs in
      (c, rw one more, e' ∙ ap (λ t. t ++ rs) e ∙ append_assoc a.lines (r ∷ []) rs)

  -- A file of rules, one to a line, is loaded as exactly these rules in their order, if memory is
  -- granted: for patterns of 1 to 255 bytes without comma, newline or NUL and without blanks at
  -- their ends.
  pub read_rules-print_file :
      (rs : List RuleLine)
      → AllRules rs
      → (a : RuleArray) × (read_rules realloc_ok (print_file rs) ≡ some a) × (a.lines ≡ rs)
  unfolding read_rules
  read_rules-print_file rs v =
      let (a, loaded, e) = load_lines-print_lines no_rules rs v in
      (a, rw (read_lines-print_file (suc (length (print_file rs))) rs v (omega arith)) loaded, e)
