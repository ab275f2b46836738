-- ===== src/Rules.antt =====
-- src/dpi_engine.c, the rule file: `trim`, `parse_line` and the reading loop of
-- `dpi_engine_load_rules`.
--
-- Strings are C strings, without their NUL. A file is its bytes.
pub mod Lines
pub mod Parse
pub mod Array
pub mod Print
pub mod File
use hyper_dpi.Prelude.{
  ℕ, zero, suc, ◌+◌, ◌-◌, ◌*◌, Bool, true, false, ◌&&◌, ◌||◌, ◌==◌, ltb, leb, if◌then◌else◌, Option,
  none, some, ◌>>=◌, ◌>>◌, require, List, [], ◌∷◌, ◌++◌, Bytes, codes, length, take, u32,
}
use hyper_dpi.Traffic.{TrafficType, http, https, Action, forward, drop}
use hyper_dpi.Http.{to_lower}

-- `struct rule_line`.
pub record RuleLine : Type 0 where
  pub type : TrafficType
  pub pattern : Bytes
  pub action : Action

abbrev pub pattern_cap : ℕ
pattern_cap = 256

abbrev pub linebuf_cap : ℕ
linebuf_cap = 512

-- The two sets of blanks of `trim`: at the front, and at the end.
abbrev pub is_front_blank : ℕ → Bool
is_front_blank c = c == b' ' || c == 9

abbrev pub is_end_blank : ℕ → Bool
is_end_blank c = c == b' ' || c == 9 || c == 13 || c == 10

unfoldable pub trim_front : Bytes → Bytes
trim_front [] = []
trim_front (c ∷ cs) = let rest = trim_front cs in if is_front_blank c then rest else c ∷ cs

abbrev pub cons_unless_blank : ℕ → Bytes → Bytes
cons_unless_blank c [] = if is_end_blank c then [] else c ∷ []
cons_unless_blank c (d ∷ ds) = c ∷ d ∷ ds

unfoldable pub trim_end : Bytes → Bytes
trim_end [] = []
trim_end (c ∷ cs) = cons_unless_blank c (trim_end cs)

-- `while (end > s && …)`: the first byte is never cut.
unfoldable pub trim_behind_first : Bytes → Bytes
unfolding trim_end
trim_behind_first [] = []
trim_behind_first (c ∷ cs) = c ∷ trim_end cs

unfoldable pub trim : Bytes → Bytes
unfolding trim_front trim_behind_first
trim s = trim_behind_first (trim_front s)

-- `strtok_r(…, ",", …)`: the delimiters at the front are skipped, and the token ends at the next.
unfoldable pub skip_commas : Bytes → Bytes
skip_commas [] = []
skip_commas (c ∷ cs) = let rest = skip_commas cs in if c == b',' then rest else c ∷ cs

abbrev pub cons_token : ℕ → Bytes × Bytes → Bytes × Bytes
cons_token c (token, rest) = (c ∷ token, rest)

unfoldable pub split_comma : Bytes → Bytes × Bytes
split_comma [] = ([], [])
split_comma (c ∷ cs) =
    let more = split_comma cs in if c == b',' then ([], cs) else cons_token c more

abbrev pub token_of : Bytes → Option (Bytes × Bytes)
token_of [] = none
token_of (c ∷ cs) = some (split_comma (c ∷ cs))

unfoldable pub strtok : Bytes → Option (Bytes × Bytes)
unfolding skip_commas split_comma
strtok s = token_of (skip_commas s)

-- `strcasecmp(a, b) == 0`.
unfoldable pub equal_ci : Bytes → Bytes → Bool
equal_ci [] [] = true
equal_ci [] (d ∷ ds) = false
equal_ci (c ∷ cs) [] = false
equal_ci (c ∷ cs) (d ∷ ds) = to_lower c == to_lower d && equal_ci cs ds

unfoldable pub parse_type : Bytes → Option TrafficType
unfolding equal_ci
parse_type s =
    if equal_ci s (codes "HTTP")
    then some http
    else if equal_ci s (codes "HTTPS")
    then some https
    else none

unfoldable pub parse_action : Bytes → Option Action
unfolding equal_ci
parse_action s =
    if equal_ci s (codes "DROP")
    then some drop
    else if equal_ci s (codes "FORWARD")
    then some forward
    else none

-- `none` is the return of -1.
unfoldable pub parse_line : Bytes → Option RuleLine
parse_line line = do
  (type_s, rest) ← strtok line
  (pattern_s, rest') ← strtok rest
  (action_s, rest'') ← strtok rest'
  type ← parse_type (trim type_s)
  action ← parse_action (trim action_s)
  some (record { type = type; pattern = take (pattern_cap - 1) (trim pattern_s); action = action })

-- `fgets(linebuf, n + 1, f)`: up to a newline, and of `n` bytes at most; and what is left.
unfoldable pub fgets : ℕ → Bytes → Bytes × Bytes
fgets zero s = ([], s)
fgets (suc n) [] = ([], [])
fgets (suc n) (c ∷ cs) =
    let more = fgets n cs in if c == 10 then (c ∷ [], cs) else cons_token c more

-- The reading loop's lines, with a bound on their number.
unfoldable pub read_lines : ℕ → Bytes → List Bytes
read_lines zero s = []
read_lines (suc n) [] = []
read_lines (suc n) (c ∷ cs) =
    let (line, rest) = fgets (linebuf_cap - 1) (c ∷ cs) in line ∷ read_lines n rest

-- `linebuf` as a C string.
unfoldable pub until_nul : Bytes → Bytes
until_nul [] = []
until_nul (c ∷ cs) = let rest = until_nul cs in if c == 0 then [] else c ∷ rest

abbrev pub is_skipped : Bytes → Bool
is_skipped [] = true
is_skipped (c ∷ cs) = c == b'#'

-- The growing array of rules: its elements, and its capacity.
pub record RuleArray : Type 0 where
  pub lines : List RuleLine
  pub cap : ℕ

abbrev pub no_rules : RuleArray
no_rules = record { lines = []; cap = 0 }

-- `if (n == cap) …`: the capacity is doubled, if `realloc` of that many gives memory.
unfoldable pub reserve : (ℕ → Bool) → RuleArray → Option RuleArray
reserve realloc_ok a =
    if length a.lines == a.cap
    then (let cap = if a.cap == 0 then 16 else u32 (a.cap * 2) in
        if realloc_ok cap then some (record a { cap = cap }) else none)
    else some a

-- `lines[n] = …; n++`, or the line is malformed and skipped.
unfoldable pub store : RuleArray → Option RuleLine → RuleArray
store a none = a
store a (some r) = record a { lines = a.lines ++ r ∷ [] }

-- The body of the reading loop. `none` is the exit to `out` with -1.
unfoldable pub load_line : (ℕ → Bool) → RuleArray → Bytes → Option RuleArray
load_line realloc_ok a linebuf =
    let l = trim (until_nul linebuf) in
    if is_skipped l then some a else do a' ← reserve realloc_ok a; some (store a' (parse_line l))

unfoldable pub load_lines : (ℕ → Bool) → RuleArray → List Bytes → Option RuleArray
load_lines realloc_ok a [] = some a
load_lines realloc_ok a (l ∷ ls) = do a' ← load_line realloc_ok a l; load_lines realloc_ok a' ls

-- The rules of a file.
unfoldable pub read_rules : (ℕ → Bool) → Bytes → Option RuleArray
read_rules realloc_ok file = load_lines realloc_ok no_rules (read_lines (suc (length file)) file)
