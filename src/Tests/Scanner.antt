-- ===== src/Tests/Scanner.antt =====
-- A scanner that stands for Hyperscan: a pattern matches where it occurs in the text as it is.
use hyper_dpi.Prelude.{
  ℕ, ◌+◌, ◌≡◌, refl, sym, Bool, true, false, Bool-cases, ◌⊎◌, inl, inr, if◌then◌else◌, Option, none,
  some, some_inj, List, [], ◌∷◌, Bytes, arith,
}
use hyper_dpi.Traffic.{Action}
use hyper_dpi.Http.{strstr}
use hyper_dpi.Engine.{HyperScan, HsError, hs_failed, Callback, deliver, mem, reported}

abbrev pub is_some : Option Bytes → Bool
is_some none = false
is_some (some x) = true

abbrev pub occurs : Bytes → ℕ → Bytes → Bool
occurs pattern flags text = is_some (strstr text pattern)

abbrev pub Database : Type 0
Database = List Bytes × List ℕ × List ℕ

abbrev pub matching : Bytes → List Bytes → List ℕ → List ℕ → List ℕ
matching text (e ∷ es) (f ∷ fs) (d ∷ ds) =
    let rest = matching text es fs ds in if occurs e f text then d ∷ rest else rest
matching text _ _ _ = []

pub mem-matching :
    (text : Bytes) (es : List Bytes) (fs ds : List ℕ) (i : ℕ)
    → mem i (matching text es fs ds) ≡ reported occurs text es fs ds i
mem-matching text [] fs ds i = refl
mem-matching text (e ∷ es) [] ds i = refl
mem-matching text (e ∷ es) (f ∷ fs) [] i = refl
mem-matching text (e ∷ es) (f ∷ fs) (d ∷ ds) i = elim (Bool-cases (occurs e f text)) [
  | inl yes_ ↦ ground (arith, mem-matching text es fs ds i)
  | inr no_ ↦ ground (arith, mem-matching text es fs ds i)
]

abbrev pub run : Database → Bytes → Option (Unit {0}) → Callback → Action → Action × HsError
run (es, fs, ds) text none on ctx = (ctx, hs_failed 0)
run (es, fs, ds) text (some s) on ctx = deliver on (matching text es fs ds) ctx

abbrev pub given : Option (Unit {0}) → Bool
given none = false
given (some s) = true

pub run_lem :
    (db : Database) (text : Bytes) (s : Option (Unit {0})) (on : Callback) (ctx : Action)
    → ((n : ℕ) × ((run db text s on ctx).1 ≡ hs_failed n))
      ⊎ (run db text s on ctx ≡ deliver on (matching text db.0 db.1 db.2) ctx)
run_lem (es, fs, ds) text none on ctx = inl (0, refl)
run_lem (es, fs, ds) text (some s) on ctx = inr refl

pub run-given :
    (db : Database) (text : Bytes) (s : Option (Unit {0})) (on : Callback) (ctx : Action)
    → given s ≡ true
    → run db text s on ctx ≡ deliver on (matching text db.0 db.1 db.2) ctx
run-given db text none on ctx u = absurd cc
run-given (es, fs, ds) text (some s) on ctx u = refl

abbrev pub occurrence_scan : HyperScan
occurrence_scan = record {
  Flags = ℕ;
  caseless = 1;
  dotall = 2;
  flag_or = ◌+◌;
  Db = Database;
  Scratch = Unit {0};
  compile_multi = λ es fs ds n. some (es, fs, ds);
  hs_alloc_scratch = λ db s. some tt;
  scan = run;
  matches = occurs;
  reports = λ db text. matching text db.0 db.1 db.2;
  usable = λ s db. given s;
  mem-reports = λ es fs ds n db e text i. rw (sym (some_inj e)) (mem-matching text es fs ds i);
  scan_lem = run_lem;
  scan-usable = run-given;
  usable-alloc = λ db s s' e. (refl, λ other u. refl);
}
