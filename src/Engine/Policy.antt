-- ===== src/Engine/Policy.antt =====
-- What the loaded engine decides.
use hyper_dpi.Prelude.{
  ℕ, ◌≡◌, ◌≢◌, refl, sym, ap, subst, ◌∙◌, Bool, true, false, ◌==◌, Bool-cases, inl, inr, Option,
  none, some, List, Bytes, arith,
}
use hyper_dpi.Traffic.{TrafficType, Action, forward, drop}
use hyper_dpi.Rules.{RuleLine}
use hyper_dpi.Engine.{
  HyperScan, HsError, hs_failed, DpiDb, empty_db, on_match, deliver, mem, verdict, reported, Arrays,
  count_type, fill, with_db, compile_db, scan_db,
}
use hyper_dpi.Engine.Scan.{drop_if, some_block, deliver-on_match, some_block-true, mem-some_block}
use hyper_dpi.Engine.Compile.{blocked, fill-blocked, blocked-fill}

Bool-eq : (a b : Bool) → (a ≡ true → b ≡ true) → (b ≡ true → a ≡ true) → a ≡ b
Bool-eq true b f g = sym (f refl)
Bool-eq false true f g = g refl
Bool-eq false false f g = refl

pub true_ne_false : true ≢ false
true_ne_false e = cc

module _ (H : HyperScan) (t : TrafficType) (lines : List RuleLine) where
  abbrev arrays : Arrays H
  arrays = fill H t 0 lines

  abbrev compiled : H.Db → DpiDb H
  compiled db = record { db = some db; rules = some arrays.actions; nrules = count_type H t lines }

  some_block-compiled :
      (db : H.Db) (text : Bytes)
      → H.compile_multi arrays.exprs arrays.flags arrays.ids (count_type H t lines) ≡ some db
      → some_block H (compiled db) (H.reports db text) ≡ blocked H t text lines
  some_block-compiled db text e = Bool-eq _ _ sound complete
    where
      law :
          (i : ℕ)
          → mem i (H.reports db text)
            ≡ reported H.matches text arrays.exprs arrays.flags arrays.ids i
      law i = H.mem-reports arrays.exprs arrays.flags arrays.ids (count_type H t lines) db e text i

      sound : some_block H (compiled db) (H.reports db text) ≡ true → blocked H t text lines ≡ true
      sound h =
          let (i, m, b) = some_block-true H (compiled db) (H.reports db text) h in
          let (low, high, s) = fill-blocked H t text 0 lines i (sym (law i) ∙ m) in s (ground arith)

      complete :
          blocked H t text lines ≡ true → some_block H (compiled db) (H.reports db text) ≡ true
      complete h =
          let (i, rep, act) = blocked-fill H t text 0 lines h in
          let high = (fill-blocked H t text 0 lines i rep).1 in
          mem-some_block H (compiled db) (H.reports db text) i (law i ∙ rep) (ground arith)

  none-blocked :
      (text : Bytes) → (count_type H t lines == 0) ≡ true → blocked H t text lines ≡ false
  none-blocked text z = elim (Bool-cases (blocked H t text lines)) [
    | inr free ↦ free
    | inl hit ↦
        let (i, rep, act) = blocked-fill H t text 0 lines hit in
        let high = (fill-blocked H t text 0 lines i rep).1 in absurd (ground arith)
  ]

verdict_failed : (p : Action × HsError) (n : ℕ) → p.1 ≡ hs_failed n → verdict p ≡ forward
verdict_failed (a, e) n h = rw h refl

module _ (H : HyperScan) (t : TrafficType) (lines : List RuleLine) where
  -- The database decides as the rules of the type say. DROP needs a rule that says so, whatever
  -- the scratch space.
  pub record Decides (d : DpiDb H) : Type 0 where
    pub sound :
        (s : Option H.Scratch) (text : Bytes)
        → scan_db H d d.db s text ≡ drop
        → blocked H t text lines ≡ true
    pub exact :
        (s : Option H.Scratch) (text : Bytes)
        → ((db : H.Db) → d.db ≡ some db → H.usable s db ≡ true)
        → scan_db H d d.db s text ≡ drop_if (blocked H t text lines)

  empty-Decides : (count_type H t lines == 0) ≡ true → Decides (empty_db H)
  empty-Decides z = record {
    sound = λ s text h. absurd cc;
    exact = λ s text u. rw (none-blocked H t lines text z) refl;
  }

  compiled-Decides :
      (db : H.Db)
      → H.compile_multi
          (arrays H t lines).exprs
          (arrays H t lines).flags
          (arrays H t lines).ids
          (count_type H t lines)
        ≡ some db
      → (count_type H t lines == 0) ≡ false
      → Decides (compiled H t lines db)
  unfolding on_match
  compiled-Decides db e nz = record { sound = sound; exact = exact }
    where
      on : ℕ → Action → Action × Bool
      on = on_match H (compiled H t lines db)

      delivered :
          (text : Bytes)
          → verdict (deliver on (H.reports db text) forward) ≡ drop_if (blocked H t text lines)
      delivered text =
          deliver-on_match H (compiled H t lines db) (H.reports db text)
          ∙ ap drop_if (some_block-compiled H t lines db text e)

      exact :
          (s : Option H.Scratch) (text : Bytes)
          → ((db' : H.Db) → some db ≡ some db' → H.usable s db' ≡ true)
          → scan_db H (compiled H t lines db) (some db) s text ≡ drop_if (blocked H t text lines)
      exact s text u =
          rw nz (ap verdict (H.scan-usable db text s on forward (u db refl)) ∙ delivered text)

      sound :
          (s : Option H.Scratch) (text : Bytes)
          → scan_db H (compiled H t lines db) (some db) s text ≡ drop
          → blocked H t text lines ≡ true
      sound s text h = elim (H.scan_lem db text s on forward) [
        | inl (n, failed) ↦
            let v = verdict_failed (H.scan db text s on forward) n failed in
            let h' = rw nz at h in absurd cc
        | inr ok ↦
            let v = ap verdict ok ∙ delivered text in
            let h' = rw nz at h in
            let d : drop_if (blocked H t text lines) ≡ drop = sym v ∙ h' in ground arith
      ]

  with_db-Decides :
      (m : Option H.Db) (d : DpiDb H)
      → H.compile_multi
          (arrays H t lines).exprs
          (arrays H t lines).flags
          (arrays H t lines).ids
          (count_type H t lines)
        ≡ m
      → (count_type H t lines == 0) ≡ false
      → with_db H m (arrays H t lines).actions (count_type H t lines) ≡ (d, true)
      → Decides d
  with_db-Decides none d e nz h = absurd (true_ne_false (sym (ap (λ p. p.1) h)))
  with_db-Decides (some db) d e nz h = subst Decides (ap (λ p. p.0) h) (compiled-Decides db e nz)

  pub compile_db-Decides :
      (calloc_ok : Bool) (out d : DpiDb H)
      → compile_db H calloc_ok lines t out ≡ (d, true)
      → Decides d
  unfolding compile_db
  compile_db-Decides calloc_ok out d e = elim (Bool-cases (count_type H t lines == 0)) [
    | inl z ↦ subst Decides (ap (λ p. p.0) (rw z at e)) (empty-Decides z)
    | inr nz ↦ elim (Bool-cases calloc_ok) [
      | inl granted ↦ with_db-Decides _ d refl nz (rw (nz, granted) at e)
      | inr refused ↦ absurd (true_ne_false (sym (ap (λ p. p.1) (rw (nz, refused) at e))))
    ]
  ]
