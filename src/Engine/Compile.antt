-- ===== src/Engine/Compile.antt =====
-- Compiling: the arrays of `compile_db` are aligned.
use hyper_dpi.Prelude.{
  ℕ, suc, ◌+◌, ◌-◌, ◌≤◌, ◌<◌, ◌≡◌, refl, ap, Bool, true, false, ◌&&◌, ◌||◌, ◌==◌, Bool-cases, inl,
  inr, List, [], ◌∷◌, Bytes, arith, length, get_or, ==_self,
}
use hyper_dpi.Traffic.{TrafficType, same_type, Action, forward, is_drop}
use hyper_dpi.Rules.{RuleLine}
use hyper_dpi.Engine.{HyperScan, reported, Arrays, count_type, fill}

-- One kept rule in front of the arrays: `matched` is whether it matches, `rep`, `acts` and `b` are
-- of the rules behind it.
kept_sound :
    (matched rep b : Bool) (a : Action) (acts : List Action) (n k i : ℕ)
    → (rep ≡ true
        → (k + 1 ≤ i)
          × (i < k + 1 + n)
          × (is_drop (get_or acts (i - (k + 1)) forward) ≡ true → b ≡ true))
    → ((k == i && matched) || rep) ≡ true
    → (k ≤ i)
      × (i < k + suc n)
      × (is_drop (get_or (a ∷ acts) (i - k) forward) ≡ true → ((is_drop a && matched) || b) ≡ true)
kept_sound matched true b a acts n k i ih h =
    let (low, high, sound) = ih refl in
    let next : i - k ≡ suc (i - (k + 1)) = omega arith in
    (omega arith, omega arith, λ e. let e' = sound (rw next at e) in ground arith)
kept_sound matched false b a acts n k i ih h =
    let here : k ≡ i = ground arith in
    let m : matched ≡ true = ground arith in
    let zero_at : i - k ≡ 0 = omega arith in
    (omega arith, omega arith, λ e. let d = rw zero_at at e in ground arith)

module _ (H : HyperScan) (t : TrafficType) where
  -- The four arrays have as many elements as the first loop counts.
  pub record Sized (a : Arrays H) (n : ℕ) : Type 0 where
    pub exprs_eq : length a.exprs ≡ n
    pub ids_eq : length a.ids ≡ n
    pub flags_eq : length a.flags ≡ n
    pub actions_eq : length a.actions ≡ n

  pub fill-Sized : (k : ℕ) (rs : List RuleLine) → Sized (fill H t k rs) (count_type H t rs)
  unfolding fill count_type
  fill-Sized k [] = record { exprs_eq = refl; ids_eq = refl; flags_eq = refl; actions_eq = refl }
  fill-Sized k (r ∷ rs) = elim (Bool-cases (same_type r.type t)) [
    | inl kept ↦
        let s = fill-Sized (k + 1) rs in
        rw kept (record {
          exprs_eq = ap suc s.exprs_eq;
          ids_eq = ap suc s.ids_eq;
          flags_eq = ap suc s.flags_eq;
          actions_eq = ap suc s.actions_eq;
        })
    | inr skipped ↦ rw skipped (fill-Sized k rs)
  ]

  module _ (text : Bytes) where
    -- The policy that the rules state: some DROP rule of the type matches the text.
    abbrev pub blocked : List RuleLine → Bool
    blocked [] = false
    blocked (r ∷ rs) =
        (same_type r.type t
          && (is_drop r.action && H.matches r.pattern (H.flag_or H.caseless H.dotall) text))
        || blocked rs

    abbrev pub reports_id : Arrays H → ℕ → Bool
    reports_id a i = reported H.matches text a.exprs a.flags a.ids i

    -- A reported id is an index of the arrays, and is the one of a rule that matches.
    pub fill-blocked :
        (k : ℕ) (rs : List RuleLine) (i : ℕ)
        → reports_id (fill H t k rs) i ≡ true
        → (k ≤ i)
          × (i < k + count_type H t rs)
          × (is_drop (get_or (fill H t k rs).actions (i - k) forward) ≡ true → blocked rs ≡ true)
    unfolding fill count_type
    fill-blocked k [] i h = absurd cc
    fill-blocked k (r ∷ rs) i h = elim (Bool-cases (same_type r.type t)) [
      | inr skipped ↦ let ih = fill-blocked k rs i (rw skipped at h) in rw skipped ih
      | inl kept ↦ rw kept (
          kept_sound (H.matches r.pattern (H.flag_or H.caseless H.dotall) text)
            (reports_id (fill H t (k + 1) rs) i) (blocked rs) r.action (fill H t (k + 1) rs).actions
            (count_type H t rs) k i (fill-blocked (k + 1) rs i) (rw kept at h))
    ]

    -- A rule that blocks the text reports an id whose action is DROP.
    pub blocked-fill :
        (k : ℕ) (rs : List RuleLine)
        → blocked rs ≡ true
        → (i : ℕ) × (reports_id (fill H t k rs) i ≡ true)
          × (is_drop (get_or (fill H t k rs).actions (i - k) forward) ≡ true)
    unfolding fill
    blocked-fill k [] h = absurd cc
    blocked-fill k (r ∷ rs) h = elim (Bool-cases (same_type r.type t)) [
      | inr skipped ↦ rw skipped (blocked-fill k rs (rw skipped at h))
      | inl kept ↦
          elim (Bool-cases
            (is_drop r.action && H.matches r.pattern (H.flag_or H.caseless H.dotall) text)) [
              | inl here ↦
                  let first : k - k ≡ 0 = omega arith in
                  rw kept (k, rw (==_self k) (ground arith), rw first (ground arith))
              | inr later ↦
                  let (i, rep, act) = blocked-fill (k + 1) rs (rw (kept, later) at h) in
                  let low : k + 1 ≤ i = (fill-blocked (k + 1) rs i rep).0 in
                  let next : i - k ≡ suc (i - (k + 1)) = omega arith in
                  rw kept (i, ground (arith, rep), rw next act)
            ]
    ]
