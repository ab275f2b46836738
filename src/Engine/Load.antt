-- ===== src/Engine/Load.antt =====
-- From the rule file to the verdict of a scan.
use hyper_dpi.Prelude.{
  ℕ, ◌≡◌, ◌≢◌, refl, sym, ap, subst, ◌∙◌, Bool, true, false, Option-cases, inl, inr, if◌then◌else◌,
  Option, none, some, some_inj, >>=-eq-some, List, Bytes,
}
use hyper_dpi.Traffic.{TrafficType, non_dpi, http, https, drop}
use hyper_dpi.Rules.{RuleLine, RuleArray, read_rules}
use hyper_dpi.Engine.{
  HyperScan, DpiDb, Engine, empty_db, compile_db, compile_https, compile_both, load_rules,
  grow_scratch, alloc_scratch, dpi_engine_scan,
}
use hyper_dpi.Engine.Scan.{drop_if}
use hyper_dpi.Engine.Compile.{blocked}
use hyper_dpi.Engine.Policy.{Decides, compile_db-Decides, true_ne_false}

if-true {ℓ} :
    {A : Type ℓ} (c : Bool) (x y : A × Bool) (z : A)
    → y.1 ≡ false
    → (if c then x else y) ≡ (z, true)
    → (c ≡ true) × (x ≡ (z, true))
if-true true x y z n h = (refl, h)
if-true false x y z n h = absurd (true_ne_false (sym (ap (λ p. p.1) h) ∙ n))

module _ (H : HyperScan) where
  -- Both databases decide as the lines say.
  pub record Loaded (lines : List RuleLine) (e : Engine H) : Type 0 where
    pub by_http : Decides H http lines e.http_db
    pub by_https : Decides H https lines e.https_db

  compile_both-Loaded :
      (a b : Bool) (lines : List RuleLine) (e₀ e : Engine H)
      → compile_both H a b lines e₀ ≡ (e, true)
      → Loaded lines e
  compile_both-Loaded a b lines e₀ e h = subst (Loaded lines) final (record {
    by_http = compile_db-Decides H http lines a e₀.http_db first.0 (ap (λ ok. (first.0, ok)) one.0);
    by_https =
        compile_db-Decides H https lines b e₀.https_db second.0 (ap (λ ok. (second.0, ok)) two.0);
  })
    where
      first : DpiDb H × Bool
      first = compile_db H a lines http e₀.http_db

      second : DpiDb H × Bool
      second = compile_db H b lines https e₀.https_db

      one :
          (first.1 ≡ true) × (compile_https H b lines (record e₀ { http_db = first.0 }) ≡ (e, true))
      one = if-true first.1 _ (record e₀ { http_db = first.0 }, false) e refl h

      both : Engine H
      both = record { http_db = first.0; https_db = second.0 }

      two : (second.1 ≡ true) × ◌≡◌ {A = Engine H × Bool} (both, true) (e, true)
      two =
          if-true second.1 _ (record { http_db = empty_db H; https_db = second.0 }, false) e refl
            one.1

      final : both ≡ e
      final = ap (λ p. p.0) two.1

  pub load_rules-Loaded :
      (realloc_ok : ℕ → Bool) (a b : Bool) (file : Bytes) (e₀ e : Engine H)
      → load_rules H realloc_ok a b (some file) e₀ ≡ (e, true)
      → (rules : RuleArray) × (read_rules realloc_ok file ≡ some rules) × Loaded rules.lines e
  unfolding load_rules
  load_rules-Loaded realloc_ok a b file e₀ e h = elim (Option-cases (read_rules realloc_ok file)) [
    | inl unread ↦ absurd (true_ne_false (sym (ap (λ p. p.1) (rw unread at h))))
    | inr (rules, r) ↦ (rules, r, compile_both-Loaded a b rules.lines e₀ e (rw r at h))
  ]

  abbrev Covers : Option H.Scratch → Option H.Db → Type 0
  Covers s o = (db : H.Db) → o ≡ some db → H.usable s db ≡ true

  grow_scratch-Covers :
      (o : Option H.Db) (s s' : Option H.Scratch)
      → grow_scratch H o s ≡ some s'
      → Covers s' o × ((other : Option H.Db) → Covers s other → Covers s' other)
  grow_scratch-Covers none s s' e =
      (λ db n. absurd cc, λ other c. subst (λ r. Covers r other) (some_inj e) c)
  grow_scratch-Covers (some db) s s' e = elim (Option-cases (H.hs_alloc_scratch db s)) [
    | inl refused ↦ let e' = rw refused at e in absurd cc
    | inr (r, granted) ↦
        let same : some r ≡ s' = some_inj (rw granted at e) in
        let (u, keep) = H.usable-alloc db s r granted in
        (
          λ db' n.
              subst (λ q. H.usable q db' ≡ true) same
                (subst (λ x. H.usable (some r) x ≡ true) (some_inj n) u),
          λ other c db' n. subst (λ q. H.usable q db' ≡ true) same (keep db' (c db' n)),
        )
  ]

  alloc_scratch-Covers :
      (e : Engine H) (s : Option H.Scratch)
      → alloc_scratch H e ≡ some s
      → Covers s e.http_db.db × Covers s e.https_db.db
  unfolding alloc_scratch
  alloc_scratch-Covers e s h =
      let (r, one, two) = >>=-eq-some (grow_scratch H e.http_db.db none) _ h in
      let (c, k) = grow_scratch-Covers e.http_db.db none r one in
      let (c', k') = grow_scratch-Covers e.https_db.db r s two in (k' e.http_db.db c, c')

  -- With rules loaded from a file and the scratch space of a worker, a scan gives DROP exactly if
  -- the file has a DROP rule of the scanned traffic type whose pattern matches the text: DROP wins
  -- over every FORWARD rule, and the order of the rules and of the match events does not matter.
  pub dpi_engine_scan-load_rules :
      (realloc_ok : ℕ → Bool) (a b : Bool) (file : Bytes) (e₀ e : Engine H) (s : Option H.Scratch)
      → load_rules H realloc_ok a b (some file) e₀ ≡ (e, true)
      → alloc_scratch H e ≡ some s
      → (rules : RuleArray) × (read_rules realloc_ok file ≡ some rules)
        × ((t : TrafficType) (text : Bytes)
            → t ≢ non_dpi
            → dpi_engine_scan H e s t text ≡ drop_if (blocked H t text rules.lines))
  unfolding dpi_engine_scan
  dpi_engine_scan-load_rules realloc_ok a b file e₀ e s h k =
      let (rules, r, l) = load_rules-Loaded realloc_ok a b file e₀ e h in
      let (c, c') = alloc_scratch-Covers e s k in
      (rules, r, λ t text ne. scanned rules l c c' t text ne)
    where
      scanned :
          (rules : RuleArray)
          → Loaded rules.lines e
          → Covers s e.http_db.db
          → Covers s e.https_db.db
          → (t : TrafficType) (text : Bytes) → t ≢ non_dpi
          → dpi_engine_scan H e s t text ≡ drop_if (blocked H t text rules.lines)
      scanned rules l c c' non_dpi text ne = absurd (ne refl)
      scanned rules l c c' http text ne = Decides.exact l.by_http s text c
      scanned rules l c c' https text ne = Decides.exact l.by_https s text c'

  -- A scan fails open: whatever the scratch space and whether or not Hyperscan reports an error,
  -- DROP is given only for a text that a DROP rule of the loaded file and of its type matches.
  dpi_engine_scan_sound :
      (realloc_ok : ℕ → Bool) (a b : Bool) (file : Bytes) (e₀ e : Engine H)
      → load_rules H realloc_ok a b (some file) e₀ ≡ (e, true)
      → (rules : RuleArray) × (read_rules realloc_ok file ≡ some rules)
        × ((s : Option H.Scratch) (t : TrafficType) (text : Bytes)
            → t ≢ non_dpi
            → dpi_engine_scan H e s t text ≡ drop
            → blocked H t text rules.lines ≡ true)
  unfolding dpi_engine_scan
  dpi_engine_scan_sound realloc_ok a b file e₀ e h =
      let (rules, r, l) = load_rules-Loaded realloc_ok a b file e₀ e h in
      (rules, r, λ s t text ne d. only rules l s t text ne d)
    where
      only :
          (rules : RuleArray)
          → Loaded rules.lines e
          → (s : Option H.Scratch) (t : TrafficType) (text : Bytes) → t ≢ non_dpi
          → dpi_engine_scan H e s t text ≡ drop
          → blocked H t text rules.lines ≡ true
      only rules l s non_dpi text ne d = absurd (ne refl)
      only rules l s http text ne d = Decides.sound l.by_http s text d
      only rules l s https text ne d = Decides.sound l.by_https s text d
