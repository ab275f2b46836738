-- ===== src/Rules/Array.antt =====
-- The growing array of rules.
use hyper_dpi.Prelude.{
  ℕ, suc, ◌+◌, ◌^◌, ◌≤◌, ◌<◌, ◌≡◌, ap, subst, Bool, Bool-cases, inl, inr, Option, none, some,
  some_inj, >>=-eq-some, List, [], ◌∷◌, Bytes, length, length-append, arith,
}
use hyper_dpi.Rules.{
  RuleLine, RuleArray, no_rules, read_lines, until_nul, trim, is_skipped, parse_line, reserve,
  store, load_line, load_lines, read_rules,
}

-- The elements stand inside the memory of the array.
abbrev pub HasRoom : RuleArray → Type 0
HasRoom a = length a.lines ≤ a.cap

-- After the reservation there is room for one more element, and the elements are as before.
reserve_lem :
    (realloc_ok : ℕ → Bool) (a a' : RuleArray)
    → HasRoom a
    → length a.lines < 2 ^ 31
    → reserve realloc_ok a ≡ some a'
    → (length a'.lines < a'.cap) × (a'.lines ≡ a.lines)
unfolding reserve
reserve_lem realloc_ok a a' h k e = ground arith

store-HasRoom :
    (a : RuleArray) (r : Option RuleLine)
    → length a.lines < a.cap
    → HasRoom (store a r) × (length (store a r).lines ≤ length a.lines + 1)
unfolding store
store-HasRoom a none h = omega arith
store-HasRoom a (some r) h = omega (arith, length-append {0} a.lines (r ∷ []))

load_line-HasRoom :
    (realloc_ok : ℕ → Bool) (a a' : RuleArray) (l : Bytes)
    → HasRoom a
    → length a.lines < 2 ^ 31
    → load_line realloc_ok a l ≡ some a'
    → HasRoom a' × (length a'.lines ≤ length a.lines + 1)
unfolding load_line
load_line-HasRoom realloc_ok a a' l h k e = elim (Bool-cases (is_skipped (trim (until_nul l)))) [
  | inl skipped ↦
      let same : a ≡ a' = some_inj (rw skipped at e) in
      subst (λ b. HasRoom b × (length b.lines ≤ length a.lines + 1)) same (omega arith)
  | inr rule ↦
      let (b, reserved, rest) = >>=-eq-some (reserve realloc_ok a) _ (rw rule at e) in
      let r = reserve_lem realloc_ok a b h k reserved in
      let s = store-HasRoom b (parse_line (trim (until_nul l))) r.0 in
      subst (λ c. HasRoom c × (length c.lines ≤ length a.lines + 1)) (some_inj rest)
        (omega (arith, s, ap (length {A = RuleLine}) r.1))
]

load_lines-HasRoom :
    (realloc_ok : ℕ → Bool) (ls : List Bytes) (a a' : RuleArray)
    → HasRoom a
    → length a.lines + length ls < 2 ^ 31
    → load_lines realloc_ok a ls ≡ some a'
    → HasRoom a' × (length a'.lines ≤ length a.lines + length ls)
unfolding load_lines
load_lines-HasRoom realloc_ok [] a a' h k e =
    subst (λ b. HasRoom b × (length b.lines ≤ length a.lines + 0)) (some_inj e) (omega arith)
load_lines-HasRoom realloc_ok (l ∷ ls) a a' h k e =
    let (b, one, rest) = >>=-eq-some (load_line realloc_ok a l) _ e in
    let r = load_line-HasRoom realloc_ok a b l h (omega arith) one in
    let s = load_lines-HasRoom realloc_ok ls b a' r.0 (omega (arith, r.1)) rest in
    omega (arith, s, r)

-- The array of rules is never written past its end. Before a rule is stored its index is below the
-- capacity that the reservation leaves, whatever `realloc` grants, and the array that the loop
-- returns holds its rules within its capacity; there are at most as many as lines. The file has
-- fewer than 2^31 lines.
pub read_rules-HasRoom :
    (realloc_ok : ℕ → Bool) (file : Bytes)
    → length (read_lines (suc (length file)) file) < 2 ^ 31
    → ((a b : RuleArray)
        → HasRoom a
        → length a.lines < 2 ^ 31
        → reserve realloc_ok a ≡ some b
        → (length b.lines < b.cap) × (b.lines ≡ a.lines))
      × ((a : RuleArray)
          → read_rules realloc_ok file ≡ some a
          → HasRoom a × (length a.lines ≤ length (read_lines (suc (length file)) file)))
unfolding read_rules
read_rules-HasRoom realloc_ok file h = (
  λ a b r k e. reserve_lem realloc_ok a b r k e,
  λ a e.
      let r =
        load_lines-HasRoom realloc_ok (read_lines (suc (length file)) file) no_rules a (omega arith)
          (omega (arith, h)) e in
      (r.0, omega (arith, r.1)),
)
