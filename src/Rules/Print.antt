-- ===== src/Rules/Print.antt =====
-- A printed rule as a line of a file.
use hyper_dpi.Prelude.{
  ℕ, ◌≤◌, ◌<◌, ltb, ◌&&◌, ◌≡◌, ◌≢◌, refl, ap, ◌∙◌, Bool, true, false, [], ◌∷◌, ◌++◌, Bytes, length,
  length-append, codes, arith,
}
use hyper_dpi.Rules.{
  RuleLine, until_nul, trim, is_skipped, trim_end, cons_unless_blank, trim_front, trim_behind_first,
}
use hyper_dpi.Traffic.{TrafficType, non_dpi, http, https, Action, forward, drop}
use hyper_dpi.Http.Strings.{Avoids}
use hyper_dpi.Rules.Parse.{IsRule, print_rule, print_type, print_action}

trim_end_newline : (xs : Bytes) → trim_end (xs ++ 10 ∷ []) ≡ trim_end xs
unfolding trim_end
trim_end_newline [] = refl
trim_end_newline (c ∷ cs) = ap (cons_unless_blank c) (trim_end_newline cs)

cons_unless_blank_lem : (c : ℕ) (s : Bytes) → s ≢ [] → cons_unless_blank c s ≡ c ∷ s
cons_unless_blank_lem c [] ne = absurd (ne refl)
cons_unless_blank_lem c (d ∷ ds) ne = refl

append_ne_nil : (xs ys : Bytes) → ys ≢ [] → xs ++ ys ≢ []
append_ne_nil [] ys ne e = ne e
append_ne_nil (x ∷ xs) ys ne e = cc

trim_end-append : (xs ys : Bytes) → ys ≢ [] → trim_end ys ≡ ys → trim_end (xs ++ ys) ≡ xs ++ ys
unfolding trim_end
trim_end-append [] ys ne e = e
trim_end-append (c ∷ cs) ys ne e =
    ap (cons_unless_blank c) (trim_end-append cs ys ne e)
    ∙ cons_unless_blank_lem c (cs ++ ys) (append_ne_nil cs ys ne)

print_action_lem :
    (a : Action) → (print_action a ≢ []) × (trim_end (print_action a) ≡ print_action a)
unfolding trim_end
print_action_lem forward = (λ e. cc, refl)
print_action_lem drop = (λ e. cc, refl)

trim-print_type :
    (t : TrafficType) (rest : Bytes)
    → t ≢ non_dpi
    → rest ≢ []
    → trim_end rest ≡ rest
    → trim ((print_type t ++ rest) ++ 10 ∷ []) ≡ print_type t ++ rest
unfolding trim trim_front trim_behind_first
trim-print_type non_dpi rest typed ne e = absurd (typed refl)
trim-print_type http rest typed ne e =
    ap (◌∷◌ b'H') (trim_end_newline (codes "TTP" ++ rest) ∙ trim_end-append (codes "TTP") rest ne e)
trim-print_type https rest typed ne e =
    ap (◌∷◌ b'H')
      (trim_end_newline (codes "TTPS" ++ rest) ∙ trim_end-append (codes "TTPS") rest ne e)

pub Avoids-append : (c : ℕ) (xs ys : Bytes) → Avoids c xs → Avoids c ys → Avoids c (xs ++ ys)
Avoids-append c [] ys a b = b
Avoids-append c (x ∷ xs) ys (d, a) b = (d, Avoids-append c xs ys a b)

-- The words of the format hold no byte below the blank.
abbrev all_visible : Bytes → Bool
all_visible [] = true
all_visible (x ∷ xs) = ltb 31 x && all_visible xs

visible-Avoids : (c : ℕ) (s : Bytes) → c ≤ 31 → all_visible s ≡ true → Avoids c s
visible-Avoids c [] h v = tt
visible-Avoids c (x ∷ xs) h v = (ground arith, visible-Avoids c xs h (ground arith))

print_type-visible : (t : TrafficType) → all_visible (print_type t) ≡ true
print_type-visible non_dpi = refl
print_type-visible http = refl
print_type-visible https = refl

print_action-visible : (a : Action) → all_visible (b',' ∷ print_action a) ≡ true
print_action-visible forward = refl
print_action-visible drop = refl

pub print_rule-Avoids :
    (c : ℕ) → c ≤ 31 → (r : RuleLine) → Avoids c r.pattern → Avoids c (print_rule r)
print_rule-Avoids c h r a =
    let t = visible-Avoids c (print_type r.type) h (print_type-visible r.type) in
    let w = visible-Avoids c (b',' ∷ print_action r.action) h (print_action-visible r.action) in
    Avoids-append c (print_type r.type) _ t (w.0, Avoids-append c r.pattern _ a w)

until_nul_lem : (s : Bytes) → Avoids 0 s → until_nul s ≡ s
unfolding until_nul
until_nul_lem [] a = refl
until_nul_lem (c ∷ cs) (d, a) = rw d (ap (◌∷◌ c) (until_nul_lem cs a))

-- A printed rule fits the buffer.
length-print_type : (t : TrafficType) → length (print_type t) ≤ 5
length-print_type non_dpi = omega arith
length-print_type http = omega arith
length-print_type https = omega arith

length-print_action : (a : Action) → length (print_action a) ≤ 7
length-print_action forward = omega arith
length-print_action drop = omega arith

pub length-print_rule : (r : RuleLine) → IsRule r → length (print_rule r) < 511
length-print_rule r v = omega (
  arith,
  v.short,
  length-print_type r.type,
  length-print_action r.action,
  length-append {0} (print_type r.type) (b',' ∷ (r.pattern ++ b',' ∷ print_action r.action)),
  length-append {0} r.pattern (b',' ∷ print_action r.action),
)

pub line-print_rule :
    (r : RuleLine)
    → IsRule r
    → Avoids 0 r.pattern
    → trim (until_nul (print_rule r ++ 10 ∷ [])) ≡ print_rule r
line-print_rule r v z =
    ap trim (
      until_nul_lem (print_rule r ++ 10 ∷ []) (
        Avoids-append 0 (print_rule r) (10 ∷ []) (print_rule-Avoids 0 (omega arith) r z)
          (refl, tt)))
    ∙ trim-print_type r.type (b',' ∷ (r.pattern ++ b',' ∷ print_action r.action)) v.typed (λ e. cc)
        (trim_end-append (b',' ∷ r.pattern) (b',' ∷ print_action r.action) (λ e. cc)
          (trim_end-append (b',' ∷ []) (print_action r.action) (print_action_lem r.action).0
            (print_action_lem r.action).1))

pub is_skipped-print_type :
    (t : TrafficType) (rest : Bytes) → t ≢ non_dpi → is_skipped (print_type t ++ rest) ≡ false
is_skipped-print_type non_dpi rest ne = absurd (ne refl)
is_skipped-print_type http rest ne = refl
is_skipped-print_type https rest ne = refl
