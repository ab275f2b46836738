-- ===== src/Engine/Scan.antt =====
-- Scanning: `on_match` and `dpi_engine_scan`.
use hyper_dpi.Prelude.{
  ℕ, ◌≡◌, refl, sym, Bool, true, false, ◌&&◌, ◌||◌, ◌==◌, ltb, ==_self, ==_iff, subst, Bool-cases,
  inl, inr, if◌then◌else◌, List, [], ◌∷◌, arith,
}
use hyper_dpi.Traffic.{Action, forward, drop, is_drop}
use hyper_dpi.Engine.{
  HyperScan, HsError, hs_scan_terminated, DpiDb, rule_at, decide, on_match, deliver, mem, verdict,
}

abbrev pub drop_if : Bool → Action
drop_if b = if b then drop else forward

deliver-decide :
    (a : Action) (more : Action → Action × HsError) (b : Bool)
    → verdict (more forward) ≡ drop_if b
    → verdict (let (ctx, stop) = decide a in if stop then (ctx, hs_scan_terminated) else more ctx)
      ≡ drop_if (is_drop a || b)
deliver-decide drop more b h = refl
deliver-decide forward more b h = h

module _ (H : HyperScan) where
  -- A match event of this id is one of a DROP rule.
  abbrev pub blocks : DpiDb H → ℕ → Bool
  blocks d id = ltb id d.nrules && is_drop (rule_at H d.rules id)

  abbrev pub some_block : DpiDb H → List ℕ → Bool
  some_block d [] = false
  some_block d (id ∷ ids) = blocks d id || some_block d ids

  -- Whatever the order of the events, DROP wins, and the scan is not taken for a failed one.
  pub deliver-on_match :
      (d : DpiDb H) (ids : List ℕ)
      → verdict (deliver (on_match H d) ids forward) ≡ drop_if (some_block d ids)
  unfolding on_match
  deliver-on_match d [] = refl
  deliver-on_match d (id ∷ ids) = elim (Bool-cases (ltb id d.nrules)) [
    | inl known ↦ rw known (
        deliver-decide (rule_at H d.rules id) (deliver (on_match H d) ids) (some_block d ids)
          (deliver-on_match d ids))
    | inr unknown ↦ rw unknown (deliver-on_match d ids)
  ]

  pub some_block-true :
      (d : DpiDb H) (ids : List ℕ)
      → some_block d ids ≡ true
      → (i : ℕ) × (mem i ids ≡ true) × (blocks d i ≡ true)
  some_block-true d [] h = absurd cc
  some_block-true d (id ∷ ids) h = elim (Bool-cases (blocks d id)) [
    | inl here ↦ (id, rw (==_self id) refl, here)
    | inr later ↦ let (i, m, b) = some_block-true d ids (ground arith) in (i, ground arith, b)
  ]

  pub mem-some_block :
      (d : DpiDb H) (ids : List ℕ) (i : ℕ)
      → mem i ids ≡ true
      → blocks d i ≡ true
      → some_block d ids ≡ true
  mem-some_block d [] i m b = m
  mem-some_block d (id ∷ ids) i m b = elim (Bool-cases (id == i)) [
    | inl here ↦ rw (subst (λ j. blocks d j ≡ true) (sym ((==_iff id i).0 here)) b) refl
    | inr later ↦ let r = mem-some_block d ids i (ground arith) b in ground arith
  ]
