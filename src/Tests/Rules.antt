-- ===== src/Tests/Rules.antt =====
-- A file of rules.
use hyper_dpi.Prelude.{
  suc, ◌≡◌, ◌<◌, ◌≤◌, ◌^◌, refl, true, some, none, List, [], ◌∷◌, codes, arith, length,
}
use hyper_dpi.Traffic.{http, https, forward, drop}
use hyper_dpi.Rules.{
  RuleLine, RuleArray, fgets, read_lines, parse_line, read_rules, reserve, trim, parse_action,
}
use hyper_dpi.Rules.Lines.{concat, AllShort, read_lines_lem}
use hyper_dpi.Rules.Parse.{IsRule, parse_line_comma}
use hyper_dpi.Rules.Array.{HasRoom, read_rules-HasRoom}
use hyper_dpi.Rules.File.{AllRules, print_file, read_rules-print_file}

abbrev pub drop_ab : RuleLine
drop_ab = record { type = http; pattern = codes "a.b"; action = drop }

abbrev pub allow_cd : RuleLine
allow_cd = record { type = https; pattern = codes "c"; action = forward }

abbrev pub rules : List RuleLine
rules = drop_ab ∷ allow_cd ∷ []

drop_ab-IsRule : IsRule drop_ab
unfolding trim
drop_ab-IsRule = record {
  typed = λ e. cc;
  pattern_ne_nil = λ e. cc;
  no_comma = (refl, (refl, (refl, tt)));
  trimmed = refl;
  short = omega arith;
}

allow_cd-IsRule : IsRule allow_cd
unfolding trim
allow_cd-IsRule = record {
  typed = λ e. cc;
  pattern_ne_nil = λ e. cc;
  no_comma = (refl, tt);
  trimmed = refl;
  short = omega arith;
}

pub rules-AllRules : AllRules rules
rules-AllRules = (
  drop_ab-IsRule,
  (refl, (refl, (refl, tt))),
  (refl, (refl, (refl, tt))),
  (allow_cd-IsRule, (refl, tt), (refl, tt), tt),
)

parse_line_comma_example : parse_line (codes "HTTP,a{1,2},DROP") ≡ none
unfolding parse_action trim
parse_line_comma_example =
    parse_line_comma http (codes "a{1") (codes "2}") (codes "DROP") (λ e. cc) (λ e. cc) (λ e. cc)
      (refl, (refl, (refl, tt))) (refl, (refl, tt)) refl

read_lines_lem_example :
    let lines = read_lines (suc (length (codes "a"))) (codes "a") in
    (concat lines ≡ codes "a") × AllShort lines
read_lines_lem_example = read_lines_lem (codes "a")

read_rules-HasRoom_example :
    ((a b : RuleArray)
      → HasRoom a
      → length a.lines < 2 ^ 31
      → reserve (λ n. true) a ≡ some b
      → (length b.lines < b.cap) × (b.lines ≡ a.lines))
    × ((a : RuleArray)
        → read_rules (λ n. true) (codes "HTTP") ≡ some a
        → HasRoom a
          × (length a.lines ≤ length (read_lines (suc (length (codes "HTTP"))) (codes "HTTP"))))
unfolding read_lines fgets
read_rules-HasRoom_example = read_rules-HasRoom (λ n. true) (codes "HTTP") (omega arith)

read_rules-print_file_example :
    (a : RuleArray) × (read_rules (λ n. true) (print_file rules) ≡ some a) × (a.lines ≡ rules)
read_rules-print_file_example = read_rules-print_file (λ n. true) (λ n. refl) rules rules-AllRules
