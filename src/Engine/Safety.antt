-- ===== src/Engine/Safety.antt =====
-- What a load leaves behind, whether it succeeds or not.
use hyper_dpi.Prelude.{
  ℕ, ◌≡◌, ◌⊎◌, refl, sym, subst, Bool, true, false, Bool-cases, inl, inr, if◌then◌else◌, Option,
  Option-cases, none, some, List, Bytes, ◌==◌, length,
}
use hyper_dpi.Traffic.{TrafficType, http, https, same_type, Action, forward}
use hyper_dpi.Rules.{RuleLine, read_rules}
use hyper_dpi.Engine.{
  HyperScan, DpiDb, Engine, empty_db, empty_engine, compile_db, load_rules, with_db, count_type,
  dpi_engine_scan, db_of,
}
use hyper_dpi.Engine.Compile.{fill-Sized, Sized}
use hyper_dpi.Engine.Policy.{true_ne_false}

module _ (H : HyperScan) where
  -- A database stands with as many actions as it has ids, and only after a successful load.
  abbrev pub DbOk : DpiDb H → Bool → Type 0
  DbOk d ok =
      (d.db ≡ none)
      ⊎ ((ok ≡ true) × ((acts : List Action) × (d.rules ≡ some acts) × (length acts ≡ d.nrules)))

  abbrev pub EngineOk : Engine H × Bool → Type 0
  EngineOk (e, ok) = DbOk e.http_db ok × DbOk e.https_db ok

  with_db-DbOk :
      (m : Option H.Db) (acts : List Action) (n : ℕ)
      → length acts ≡ n
      → DbOk (with_db H m acts n).0 (with_db H m acts n).1
  with_db-DbOk none acts n e = inl refl
  with_db-DbOk (some db) acts n e = inr (refl, (acts, refl, e))

  compile_db-DbOk :
      (ok : Bool) (lines : List RuleLine) (t : TrafficType) (out : DpiDb H)
      → out.db ≡ none
      → DbOk (compile_db H ok lines t out).0 (compile_db H ok lines t out).1
  unfolding compile_db
  compile_db-DbOk ok lines t out e = elim (Bool-cases (count_type H t lines == 0)) [
    | inl z ↦ rw z (inl refl)
    | inr nz ↦ elim (Bool-cases ok) [
      | inl granted ↦
          rw (nz, granted) (with_db-DbOk _ _ _ (Sized.actions_eq (fill-Sized H t 0 lines)))
      | inr refused ↦ rw (nz, refused) (inl e)
    ]
  ]

  both_ok :
      (p q : DpiDb H × Bool) (e₀ : Engine H)
      → e₀.https_db.db ≡ none
      → DbOk p.0 p.1
      → DbOk q.0 q.1
      → EngineOk (
          if p.1
          then (if q.1
              then (record { http_db = p.0; https_db = q.0 }, true)
              else (record { http_db = empty_db H; https_db = q.0 }, false))
          else (record e₀ { http_db = p.0 }, false))
  both_ok (p, true) (q, true) e₀ n a b = (a, b)
  both_ok (p, true) (q, false) e₀ n a b = (inl refl, b)
  both_ok (p, false) (q, r) e₀ n a b = (a, inl n)

  -- A match event never reads past the actions: after `dpi_engine_load_rules` on the zeroed
  -- databases, for whatever file and whatever allocation fails, a traffic type has no database, or
  -- the load has succeeded and there are as many actions as the count that guards the access.
  pub load_rules-EngineOk :
      (realloc_ok : ℕ → Bool) (a b : Bool) (file : Option Bytes)
      → EngineOk (load_rules H realloc_ok a b file (empty_engine H))
  unfolding load_rules
  load_rules-EngineOk realloc_ok a b none = (inl refl, inl refl)
  load_rules-EngineOk realloc_ok a b (some file) =
      elim (Option-cases (read_rules realloc_ok file)) [
        | inl unread ↦ rw unread (inl refl, inl refl)
        | inr (rules, r) ↦ rw r (
            both_ok (compile_db H a rules.lines http (empty_db H))
              (compile_db H b rules.lines https (empty_db H)) (empty_engine H) refl
              (compile_db-DbOk a rules.lines http (empty_db H) refl)
              (compile_db-DbOk b rules.lines https (empty_db H) refl))
      ]

  silent : (d : DpiDb H) → DbOk d false → d.db ≡ none
  silent d (inl e) = e
  silent d (inr (f, r)) = absurd (true_ne_false (sym f))

  -- There are no half-loaded rules: where `dpi_engine_load_rules` on the zeroed databases fails, at
  -- the file, an allocation or either compilation, every later scan forwards.
  pub load_rules-failed :
      (realloc_ok : ℕ → Bool) (a b : Bool) (file : Option Bytes) (e : Engine H)
      → load_rules H realloc_ok a b file (empty_engine H) ≡ (e, false)
      → (s : Option H.Scratch) (t : TrafficType) (text : Bytes)
      → dpi_engine_scan H e s t text ≡ forward
  unfolding dpi_engine_scan
  load_rules-failed realloc_ok a b file e h s t text =
      let (k, l) = subst EngineOk h (load_rules-EngineOk realloc_ok a b file) in
      rw (none_of t (silent e.http_db k) (silent e.https_db l)) refl
    where
      none_of :
          (t : TrafficType) → e.http_db.db ≡ none → e.https_db.db ≡ none → (db_of H e t).db ≡ none
      none_of t p q = elim (Bool-cases (same_type t http)) [ inl h ↦ rw h p | inr n ↦ rw n q ]
