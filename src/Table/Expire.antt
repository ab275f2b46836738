-- ===== src/Table/Expire.antt =====
-- What the sweep of the flow table removes, and that it ends.
use native.Mathlib.Decide.{ℕ_discrete}
use hyper_dpi.Prelude.{
  ℕ, zero, suc, ◌+◌, ◌≤◌, ◌<◌, ◌≡◌, ◌≢◌, refl, sym, ap, subst, ◌∙◌, true, ltb, Bool-cases, inl, inr,
  Option, none, some, some_inj, sub64, arith,
}
use hyper_dpi.Packet.{FlowKey}
use hyper_dpi.Table.{FlowHash, FlowTable, expire_entry, on_entry, expire_loop, expire}

pub FlowKey-discrete : Discrete FlowKey
FlowKey-discrete = hlevel ℕ_discrete

module _ (fh : FlowHash) where
  open fh use {lookup, iterate, slots, lookup-del_self, lookup-del_ne, iterate_lem}

  -- Everything but the hash stays.
  abbrev pub SameStates : FlowTable fh → FlowTable fh → Type 0
  SameStates ft ft' =
      (ft'.states ≡ ft.states)
      × (ft'.timeout_cycles ≡ ft.timeout_cycles)
      × (ft'.call_count ≡ ft.call_count)

  -- The flow at `idx` sent within the timeout.
  abbrev pub IsLive : FlowTable fh → ℕ → ℕ → Type 0
  IsLive ft now idx = sub64 now (ft.states idx).last_seen_tsc ≤ ft.timeout_cycles

  -- What a sweep from `ft` to `ft'` does: no flow is added, and no live flow is lost.
  pub record Swept (now : ℕ) (ft ft' : FlowTable fh) : Type 0 where
    pub same : SameStates ft ft'
    pub no_new : (k : FlowKey) (i : ℕ) → lookup ft'.h k ≡ some i → lookup ft.h k ≡ some i
    pub live_stay :
        (k : FlowKey) (i : ℕ) → lookup ft.h k ≡ some i → IsLive ft now i → lookup ft'.h k ≡ some i

  -- Two keys at a live and at an idle position differ.
  keys_differ :
      (ft : FlowTable fh) (now idx i : ℕ) (k key : FlowKey)
      → lookup ft.h key ≡ some idx
      → ltb ft.timeout_cycles (sub64 now (ft.states idx).last_seen_tsc) ≡ true
      → lookup ft.h k ≡ some i
      → IsLive ft now i
      → k ≢ key
  keys_differ ft now idx i k key at idle e live same =
      let same_at : i ≡ idx = some_inj (sym e ∙ ap (lookup ft.h) same ∙ at) in
      let live' = subst (IsLive ft now) same_at live in absurd (ground arith)

  expire_entry-Swept :
      (ft : FlowTable fh) (now idx : ℕ) (key : FlowKey)
      → lookup ft.h key ≡ some idx
      → Swept now ft (expire_entry fh ft now idx key)
  unfolding expire_entry
  expire_entry-Swept ft now idx key at =
      elim (Bool-cases (ltb ft.timeout_cycles (sub64 now (ft.states idx).last_seen_tsc))) [
        | inr live ↦
            simp live
              (record { same = (refl, refl, refl); no_new = λ k i e. e; live_stay = λ k i e l. e })
        | inl idle ↦ simp idle (record {
          same = (refl, refl, refl);
          no_new = λ k i e. elim (FlowKey-discrete k key) [
            | yes same_key ↦
                absurd (some-ne-none (sym e ∙ ap (lookup _) same_key ∙ lookup-del_self ft.h key))
            | no other ↦ sym (lookup-del_ne ft.h k key other) ∙ e
          ];
          live_stay =
              λ k i e l. lookup-del_ne ft.h k key (keys_differ ft now idx i k key at idle e l) ∙ e;
        })
      ]
    where
      some-ne-none : {i : ℕ} → some i ≡ none → ⊥
      some-ne-none e = cc

  Swept-trans : (now : ℕ) (a b c : FlowTable fh) → Swept now a b → Swept now b c → Swept now a c
  Swept-trans now a b c r s = record {
    same = (s.same.0 ∙ r.same.0, s.same.1 ∙ r.same.1, s.same.2 ∙ r.same.2);
    no_new = λ k i e. r.no_new k i (s.no_new k i e);
    live_stay = λ k i e l. s.live_stay k i (r.live_stay k i e l) (moved i l);
  }
    where
      moved : (i : ℕ) → IsLive a now i → IsLive b now i
      moved i l = rw (r.same.0, r.same.1) l

  on_entry-Swept :
      (continue_at : ℕ → FlowTable fh → FlowTable fh) (ft : FlowTable fh) (now next : ℕ)
      (o : Option (ℕ × FlowKey × ℕ))
      → iterate ft.h next ≡ o
      → ((next : ℕ) (ft : FlowTable fh) → Swept now ft (continue_at next ft))
      → Swept now ft (on_entry fh continue_at ft now o)
  unfolding on_entry
  on_entry-Swept continue_at ft now next none at rest = record {
    same = (refl, refl, refl);
    no_new = λ k i e. e;
    live_stay = λ k i e l. e;
  }
  on_entry-Swept continue_at ft now next (some (idx, key, next')) at rest =
      Swept-trans now ft (expire_entry fh ft now idx key) _
        (expire_entry-Swept ft now idx key (iterate_lem ft.h next idx key next' at).0)
        (rest next' (expire_entry fh ft now idx key))

  expire_loop-Swept :
      (n now next : ℕ) (ft : FlowTable fh) → Swept now ft (expire_loop fh n now next ft)
  unfolding expire_loop
  expire_loop-Swept zero now next ft = record {
    same = (refl, refl, refl);
    no_new = λ k i e. e;
    live_stay = λ k i e l. e;
  }
  expire_loop-Swept (suc n) now next ft =
      on_entry-Swept (expire_loop fh n now) ft now next (iterate ft.h next) refl
        (expire_loop-Swept n now)

  pub expire-Swept : (ft : FlowTable fh) (now : ℕ) → Swept now ft (expire fh ft now)
  unfolding expire
  expire-Swept ft now = expire_loop-Swept (suc slots) now 0 ft

  on_entry_congr :
      (f g : ℕ → FlowTable fh → FlowTable fh) (ft : FlowTable fh) (now next : ℕ)
      (o : Option (ℕ × FlowKey × ℕ))
      → iterate ft.h next ≡ o
      → ((next' : ℕ) (ft' : FlowTable fh)
          → next < next'
          → next' ≤ slots
          → f next' ft' ≡ g next' ft')
      → on_entry fh f ft now o ≡ on_entry fh g ft now o
  unfolding on_entry
  on_entry_congr f g ft now next none at same = refl
  on_entry_congr f g ft now next (some (idx, key, next')) at same =
      let lem = iterate_lem ft.h next idx key next' at in same next' _ lem.1 lem.2

  -- The sweep ends by itself: from a cursor `next` on, any two bounds on its rounds of more than
  -- the slots behind the cursor give the same table.
  expire_loop_bound :
      (n m now next : ℕ) (ft : FlowTable fh)
      → slots < n + next
      → slots < m + next
      → next ≤ slots
      → expire_loop fh n now next ft ≡ expire_loop fh m now next ft
  unfolding expire_loop
  expire_loop_bound zero m now next ft h k p = absurd (omega arith)
  expire_loop_bound (suc n) zero now next ft h k p = absurd (omega arith)
  expire_loop_bound (suc n) (suc m) now next ft h k p =
      on_entry_congr (expire_loop fh n now) (expire_loop fh m now) ft now next (iterate ft.h next)
        refl (λ next' ft' lt le. expire_loop_bound n m now next' ft' (omega arith) (omega arith) le)

-- A sweep removes idle flows only: a flow that sent within the timeout keeps its place, no flow is
-- added or moved, and no flow's state, nor the timeout or the call counter, changes.
pub expire-IsLive :
    (fh : FlowHash) (ft : FlowTable fh) (now : ℕ) (k : FlowKey) (i : ℕ)
    → let ft' = expire fh ft now in
      (fh.lookup ft.h k ≡ some i → IsLive fh ft now i → fh.lookup ft'.h k ≡ some i)
      × (fh.lookup ft'.h k ≡ some i → fh.lookup ft.h k ≡ some i)
      × SameStates fh ft ft'
expire-IsLive fh ft now k i =
    let s = expire-Swept fh ft now in (λ e l. s.live_stay k i e l, λ e. s.no_new k i e, s.same)
