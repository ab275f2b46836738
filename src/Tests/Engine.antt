-- ===== src/Tests/Engine.antt =====
-- Two rules, loaded and scanned with.
use hyper_dpi.Prelude.{◌≡◌, ◌≢◌, refl, Bool, true, some, none, Bytes, codes, ap}
use hyper_dpi.Traffic.{TrafficType, non_dpi, http, forward}
use hyper_dpi.Rules.{
  RuleArray, read_rules, load_lines, read_lines, load_line, trim, until_nul, fgets, reserve, store,
  parse_line, strtok, parse_type, parse_action,
}
use hyper_dpi.Engine.{Engine, empty_engine, load_rules, alloc_scratch, compile_db, dpi_engine_scan}
use hyper_dpi.Engine.Scan.{drop_if}
use hyper_dpi.Engine.Compile.{blocked}
use hyper_dpi.Engine.Load.{dpi_engine_scan-load_rules}
use hyper_dpi.Engine.Safety.{EngineOk, load_rules-EngineOk, load_rules-failed}
use hyper_dpi.Tests.Scanner.{occurrence_scan}
use hyper_dpi.Tests.Rules.{rules}
use hyper_dpi.Rules.File.{print_file}

abbrev pub nothing : Engine occurrence_scan
nothing = empty_engine occurrence_scan

abbrev pub loaded : Engine occurrence_scan × Bool
loaded = load_rules occurrence_scan (λ n. true) true true (some (print_file rules)) nothing

loaded_ok : loaded.1 ≡ true
unfolding load_rules read_rules load_lines read_lines load_line trim until_nul fgets reserve store
    parse_line strtok parse_type parse_action compile_db
loaded_ok = refl

scratch_ok : alloc_scratch occurrence_scan loaded.0 ≡ some (some tt)
unfolding alloc_scratch load_rules read_rules load_lines read_lines load_line trim until_nul fgets
    reserve store parse_line strtok parse_type parse_action compile_db
scratch_ok = refl

dpi_engine_scan-load_rules_example :
    (a : RuleArray) × (read_rules (λ n. true) (print_file rules) ≡ some a)
    × ((t : TrafficType) (text : Bytes)
        → t ≢ non_dpi
        → dpi_engine_scan occurrence_scan loaded.0 (some tt) t text
          ≡ drop_if (blocked occurrence_scan t text a.lines))
dpi_engine_scan-load_rules_example =
    dpi_engine_scan-load_rules occurrence_scan (λ n. true) true true (print_file rules) nothing
      loaded.0 (some tt) (ap (λ ok. (loaded.0, ok)) loaded_ok) scratch_ok

load_rules-EngineOk_example : EngineOk occurrence_scan loaded
load_rules-EngineOk_example =
    load_rules-EngineOk occurrence_scan (λ n. true) true true (some (print_file rules))

load_rules-failed_example :
    dpi_engine_scan occurrence_scan nothing (some tt) http (codes "http://a.b/") ≡ forward
unfolding load_rules
load_rules-failed_example =
    load_rules-failed occurrence_scan (λ n. true) true true none nothing refl (some tt) http
      (codes "http://a.b/")
