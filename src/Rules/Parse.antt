-- ===== src/Rules/Parse.antt =====
-- A rule that is written as a line is read back.
use hyper_dpi.Prelude.{
  ◌≤◌, ◌≡◌, ◌≢◌, refl, ap, ◌∙◌, some, none, [], ◌∷◌, ◌++◌, Bytes, codes, length, take, take_all,
}
use hyper_dpi.Traffic.{TrafficType, non_dpi, http, https, Action, forward, drop}
use hyper_dpi.Http.Strings.{Avoids}
use hyper_dpi.Rules.{RuleLine, trim, split_comma, strtok, parse_type, parse_action, parse_line}

abbrev pub print_type : TrafficType → Bytes
print_type non_dpi = []
print_type http = codes "HTTP"
print_type https = codes "HTTPS"

abbrev pub print_action : Action → Bytes
print_action forward = codes "FORWARD"
print_action drop = codes "DROP"

-- `<Traffic_Type>,<Regex_Pattern>,<Action>`.
abbrev pub print_rule : RuleLine → Bytes
print_rule r = print_type r.type ++ b',' ∷ (r.pattern ++ b',' ∷ print_action r.action)

-- What a line can express.
pub record IsRule (r : RuleLine) : Type 0 where
  pub typed : r.type ≢ non_dpi
  pub pattern_ne_nil : r.pattern ≢ []
  pub no_comma : Avoids b',' r.pattern
  pub trimmed : trim r.pattern ≡ r.pattern
  pub short : length r.pattern ≤ 255

split_comma-append : (xs ys : Bytes) → Avoids b',' xs → split_comma (xs ++ b',' ∷ ys) ≡ (xs, ys)
unfolding split_comma
split_comma-append [] ys a = refl
split_comma-append (x ∷ xs) ys (d, a) = rw (d, split_comma-append xs ys a)

split_comma_last : (xs : Bytes) → Avoids b',' xs → split_comma xs ≡ (xs, [])
unfolding split_comma
split_comma_last [] a = refl
split_comma_last (x ∷ xs) (d, a) = rw (d, split_comma_last xs a)

-- A token and what follows its comma.
strtok-append :
    (xs ys : Bytes) → xs ≢ [] → Avoids b',' xs → strtok (xs ++ b',' ∷ ys) ≡ some (xs, ys)
unfolding strtok
strtok-append [] ys ne a = absurd (ne refl)
strtok-append (x ∷ xs) ys ne (d, a) = rw d (ap some (split_comma-append (x ∷ xs) ys (d, a)))

strtok_last : (xs : Bytes) → xs ≢ [] → Avoids b',' xs → strtok xs ≡ some (xs, [])
unfolding strtok
strtok_last [] ne a = absurd (ne refl)
strtok_last (x ∷ xs) ne (d, a) = rw d (ap some (split_comma_last (x ∷ xs) (d, a)))

type_token :
    (t : TrafficType) (rest : Bytes)
    → t ≢ non_dpi
    → (strtok (print_type t ++ b',' ∷ rest) ≡ some (print_type t, rest))
      × (parse_type (trim (print_type t)) ≡ some t)
unfolding parse_type trim
type_token non_dpi rest ne = absurd (ne refl)
type_token http rest ne =
    (strtok-append (codes "HTTP") rest (λ e. cc) (refl, (refl, (refl, (refl, tt)))), refl)
type_token https rest ne =
    (strtok-append (codes "HTTPS") rest (λ e. cc) (refl, (refl, (refl, (refl, (refl, tt))))), refl)

action_token :
    (a : Action)
    → (strtok (print_action a) ≡ some (print_action a, []))
      × (parse_action (trim (print_action a)) ≡ some a)
unfolding parse_action trim strtok
action_token forward = (refl, refl)
action_token drop = (refl, refl)

-- Reading a line that a rule is printed to gives the rule: every rule with a traffic type and a
-- pattern of 1 to 255 bytes that has no comma and no blanks at its ends can be written.
pub parse_line-print_rule : (r : RuleLine) → IsRule r → parse_line (print_rule r) ≡ some r
unfolding parse_line
parse_line-print_rule r v =
    let t = type_token r.type (r.pattern ++ b',' ∷ print_action r.action) v.typed in
    let a = action_token r.action in
    rw
      (
        t.0,
        strtok-append r.pattern (print_action r.action) v.pattern_ne_nil v.no_comma,
        a.0,
        t.1,
        a.1,
      )
      (ap (λ p. some (record { type = r.type; pattern = p; action = r.action }))
        (ap (take 255) v.trimmed ∙ take_all 255 r.pattern v.short))

-- A pattern cannot hold a comma: a line with one more comma in its pattern, which cuts it in two
-- pieces of which the second is no action, is refused.
pub parse_line_comma :
    (t : TrafficType) (pattern piece rest : Bytes)
    → t ≢ non_dpi
    → pattern ≢ []
    → piece ≢ []
    → Avoids b',' pattern
    → Avoids b',' piece
    → parse_action (trim piece) ≡ none
    → parse_line (print_type t ++ b',' ∷ (pattern ++ b',' ∷ (piece ++ b',' ∷ rest))) ≡ none
unfolding parse_line
parse_line_comma t pattern piece rest typed ne ne' a a' h =
    let first = type_token t (pattern ++ b',' ∷ (piece ++ b',' ∷ rest)) typed in
    rw (
      first.0,
      strtok-append pattern (piece ++ b',' ∷ rest) ne a,
      strtok-append piece rest ne' a',
      first.1,
      h,
    )
