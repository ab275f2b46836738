-- ===== src/Engine.antt =====
-- src/dpi_engine.c: the two databases, `compile_db`, `dpi_engine_load_rules`,
-- `dpi_engine_alloc_scratch`, `dpi_engine_free_rules` and `dpi_engine_scan`.
--
-- Hyperscan is the record `HyperScan`, whose laws are what the documentation of its calls says. A
-- pointer that may be NULL is an `Option`; `calloc` and `realloc` answer whether they give memory.
pub mod Scan
pub mod Compile
pub mod Policy
pub mod Load
pub mod Safety
use hyper_dpi.Prelude.{
  ℕ, suc, ◌+◌, ◌≡◌, ◌⊎◌, Bool, true, false, ◌&&◌, ◌||◌, ◌==◌, ltb, if◌then◌else◌, ◌>>=◌, Option,
  none, some, List, [], ◌∷◌, Bytes, length, get_or,
}
use hyper_dpi.Traffic.{TrafficType, http, https, Action, forward, drop, same_type}
use hyper_dpi.Rules.{RuleLine, RuleArray, read_rules}

-- `hs_error_t`, as the code tells its values apart.
pub data HsError : Type 0 where
  hs_success hs_scan_terminated : HsError
  hs_failed : ℕ → HsError

-- A callback: the new context, and whether scanning stops.
abbrev pub Callback : Type 0
Callback = ℕ → Action → Action × Bool

-- The match events reach the callback one after the other, until it stops the scan.
abbrev pub deliver : Callback → List ℕ → Action → Action × HsError
deliver on [] ctx = (ctx, hs_success)
deliver on (id ∷ ids) ctx =
    let (ctx', stop) = on id ctx in
    let more = deliver on ids ctx' in if stop then (ctx', hs_scan_terminated) else more

abbrev pub mem : ℕ → List ℕ → Bool
mem i [] = false
mem i (x ∷ xs) = x == i || mem i xs

module _ {Flags : Type 0} (matches : Bytes → Flags → Bytes → Bool) (text : Bytes) where
  -- Whether expression arrays with these flags and ids report the id on the text.
  abbrev pub reported : List Bytes → List Flags → List ℕ → ℕ → Bool
  reported (e ∷ es) (f ∷ fs) (d ∷ ds) i = (d == i && matches e f text) || reported es fs ds i
  reported _ _ _ i = false

-- Hyperscan. `compile_multi` has the expressions, the flags, the ids and their number; `none` is a
-- result that is not `HS_SUCCESS`.
pub record HyperScan : Type 1 where
  pub Flags : Type 0
  pub caseless : Flags
  pub dotall : Flags
  pub flag_or : Flags → Flags → Flags
  pub Db : Type 0
  pub Scratch : Type 0
  pub compile_multi : List Bytes → List Flags → List ℕ → ℕ → Option Db
  pub hs_alloc_scratch : Db → Option Scratch → Option Scratch
  pub scan : Db → Bytes → Option Scratch → Callback → Action → Action × HsError
  -- Whether the expression matches somewhere in the text.
  pub matches : Bytes → Flags → Bytes → Bool
  -- The ids of the match events, in their order.
  pub reports : Db → Bytes → List ℕ
  pub usable : Option Scratch → Db → Bool
  pub mem-reports :
      (es : List Bytes) (fs : List Flags) (ds : List ℕ) (n : ℕ) (db : Db)
      → compile_multi es fs ds n ≡ some db
      → (text : Bytes) (i : ℕ) → mem i (reports db text) ≡ reported matches text es fs ds i
  -- A scan fails, or it delivers the events; with a usable scratch space it does not fail.
  pub scan_lem :
      (db : Db) (text : Bytes) (s : Option Scratch) (on : Callback) (ctx : Action)
      → ((n : ℕ) × ((scan db text s on ctx).1 ≡ hs_failed n))
        ⊎ (scan db text s on ctx ≡ deliver on (reports db text) ctx)
  pub scan-usable :
      (db : Db) (text : Bytes) (s : Option Scratch) (on : Callback) (ctx : Action)
      → usable s db ≡ true
      → scan db text s on ctx ≡ deliver on (reports db text) ctx
  -- Scratch space is grown for one more database, and stays usable for the earlier ones.
  pub usable-alloc :
      (db : Db) (s : Option Scratch) (s' : Scratch)
      → hs_alloc_scratch db s ≡ some s'
      → (usable (some s') db ≡ true)
        × ((other : Db) → usable s other ≡ true → usable (some s') other ≡ true)

-- What a scan's context and return value come to: a failed scan forwards.
abbrev pub verdict : Action × HsError → Action
verdict (result, hs_failed n) = forward
verdict (result, _) = result

-- A match of a rule with this action: the result, and whether to stop.
abbrev pub decide : Action → Action × Bool
decide drop = (drop, true)
decide forward = (forward, false)

module _ (H : HyperScan) where
  -- `struct dpi_db`; its `struct dpi_rule` holds the action alone.
  pub record DpiDb : Type 0 where
    pub db : Option H.Db
    pub rules : Option (List Action)
    pub nrules : ℕ

  pub record Engine : Type 0 where
    pub http_db : DpiDb
    pub https_db : DpiDb

  abbrev pub empty_db : DpiDb
  empty_db = record { db = none; rules = none; nrules = 0 }

  abbrev pub empty_engine : Engine
  empty_engine = record { http_db = empty_db; https_db = empty_db }

  abbrev pub rule_at : Option (List Action) → ℕ → Action
  rule_at none id = forward
  rule_at (some rules) id = get_or rules id forward

  unfoldable pub on_match : DpiDb → Callback
  on_match db id result = if ltb id db.nrules then decide (rule_at db.rules id) else (result, false)

  -- The arrays that `compile_db` fills, from index `idx` on.
  pub record Arrays : Type 0 where
    pub exprs : List Bytes
    pub ids : List ℕ
    pub flags : List H.Flags
    pub actions : List Action

  abbrev pub no_arrays : Arrays
  no_arrays = record { exprs = []; ids = []; flags = []; actions = [] }

  abbrev pub with_rule : RuleLine → ℕ → Arrays → Arrays
  with_rule r idx a = record {
    exprs = r.pattern ∷ a.exprs;
    ids = idx ∷ a.ids;
    flags = H.flag_or H.caseless H.dotall ∷ a.flags;
    actions = r.action ∷ a.actions;
  }

  unfoldable pub count_type : TrafficType → List RuleLine → ℕ
  count_type type [] = 0
  count_type type (r ∷ rs) =
      let n = count_type type rs in if same_type r.type type then suc n else n

  unfoldable pub fill : TrafficType → ℕ → List RuleLine → Arrays
  fill type idx [] = no_arrays
  fill type idx (r ∷ rs) =
      let here = with_rule r idx (fill type (idx + 1) rs) in
      let rest = fill type idx rs in if same_type r.type type then here else rest

  -- The result of `hs_compile_multi`: the databases, and whether the call returned 0.
  abbrev pub with_db : Option H.Db → List Action → ℕ → DpiDb × Bool
  with_db none actions n = (record { db = none; rules = none; nrules = n }, false)
  with_db (some db) actions n = (record { db = some db; rules = some actions; nrules = n }, true)

  unfoldable pub compile_db : Bool → List RuleLine → TrafficType → DpiDb → DpiDb × Bool
  unfolding count_type fill
  compile_db calloc_ok lines type out =
      let n = count_type type lines in
      let a = fill type 0 lines in
      if n == 0
      then (empty_db, true)
      else if calloc_ok
      then with_db (H.compile_multi a.exprs a.flags a.ids n) a.actions n
      else (record out { rules = none }, false)

  -- From the compilation of the HTTPS rules on.
  abbrev pub compile_https : Bool → List RuleLine → Engine → Engine × Bool
  compile_https calloc_ok lines e =
      let (db, ok) = compile_db calloc_ok lines https e.https_db in
      if ok
      then (record e { https_db = db }, true)
      else (record { http_db = empty_db; https_db = db }, false)

  abbrev pub compile_both : Bool → Bool → List RuleLine → Engine → Engine × Bool
  compile_both http_ok https_ok lines e =
      let (db, ok) = compile_db http_ok lines http e.http_db in
      let rest = compile_https https_ok lines (record e { http_db = db }) in
      if ok then rest else (record e { http_db = db }, false)

  abbrev pub compile_lines : Bool → Bool → Option RuleArray → Engine → Engine × Bool
  compile_lines http_ok https_ok none e = (e, false)
  compile_lines http_ok https_ok (some a) e = compile_both http_ok https_ok a.lines e

  -- The file is `none` where it cannot be opened. The Boolean is whether 0 is returned.
  unfoldable pub load_rules : (ℕ → Bool) → Bool → Bool → Option Bytes → Engine → Engine × Bool
  load_rules realloc_ok http_ok https_ok none e = (e, false)
  load_rules realloc_ok http_ok https_ok (some file) e =
      compile_lines http_ok https_ok (read_rules realloc_ok file) e

  abbrev pub grown : Option H.Scratch → Option (Option H.Scratch)
  grown none = none
  grown (some s) = some (some s)

  -- One of the two steps of the allocation; the outer `none` is the return of -1.
  abbrev pub grow_scratch : Option H.Db → Option H.Scratch → Option (Option H.Scratch)
  grow_scratch none s = some s
  grow_scratch (some db) s = grown (H.hs_alloc_scratch db s)

  unfoldable pub alloc_scratch : Engine → Option (Option H.Scratch)
  alloc_scratch e = do s ← grow_scratch e.http_db.db none; grow_scratch e.https_db.db s

  unfoldable pub free_rules : Engine → Engine
  free_rules e = empty_engine

  abbrev pub db_of : Engine → TrafficType → DpiDb
  db_of e type = if same_type type http then e.http_db else e.https_db

  abbrev pub scan_db : DpiDb → Option H.Db → Option H.Scratch → Bytes → Action
  scan_db d none scratch text = forward
  scan_db d (some db) scratch text =
      if d.nrules == 0 then forward else verdict (H.scan db text scratch (on_match d) forward)

  unfoldable pub dpi_engine_scan : Engine → Option H.Scratch → TrafficType → Bytes → Action
  unfolding on_match
  dpi_engine_scan e scratch type text = let d = db_of e type in scan_db d d.db scratch text
