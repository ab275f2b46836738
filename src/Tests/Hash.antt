-- ===== src/Tests/Hash.antt =====
-- A hash table that stands for `rte_hash`: it holds the flows to one web server, by source port.
use hyper_dpi.Prelude.{
  ℕ, zero, suc, ◌+◌, ◌-◌, ◌≤◌, ◌<◌, ◌≡◌, ◌≢◌, refl, sym, ap, ◌∙◌, subst, Bool, true, false, ◌&&◌,
  ◌==◌, ltb, Bool-cases, inl, inr, if◌then◌else◌, Option, none, some, some_inj, update, arith,
  ==_self, ==_ne,
}
use hyper_dpi.Packet.{FlowKey}
use hyper_dpi.Table.{FlowHash}

abbrev pub key_of : ℕ → FlowKey
key_of i = record { src_ip = 0; dst_ip = 0; src_port = i; dst_port = 80; proto = 6 }

abbrev pub is_known : FlowKey → Bool
is_known k =
    ltb k.src_port 1024 && (k.src_ip == 0 && (k.dst_ip == 0 && (k.dst_port == 80 && k.proto == 6)))

-- The position of a key: keys of other flows have none.
abbrev pub position : FlowKey → Option ℕ
position k = if is_known k then some k.src_port else none

abbrev pub Present : Type 0
Present = ℕ → Bool

abbrev pub find : Present → Option ℕ → Option ℕ
find h none = none
find h (some i) = if h i then some i else none

abbrev pub insert : Present → Option ℕ → Present × Option ℕ
insert h none = (h, none)
insert h (some i) = (update h i true, some i)

abbrev pub remove : Present → Option ℕ → Present
remove h none = h
remove h (some i) = update h i false

-- The next position that is taken, of the `n` from `i` on.
abbrev pub next_of : ℕ → Present → ℕ → Option (ℕ × FlowKey × ℕ)
next_of zero h i = none
next_of (suc n) h i =
    let rest = next_of n h (i + 1) in if h i then some (i, key_of i, i + 1) else rest

pub position-eq-some : (k : FlowKey) (i : ℕ) → position k ≡ some i → (i < 1024) × (k ≡ key_of i)
position-eq-some k i e = elim (Bool-cases (is_known k)) [
  | inr other ↦ let e' = rw other at e in absurd cc
  | inl known ↦
      let same : k.src_port ≡ i = some_inj (rw known at e) in
      let a : k.src_ip ≡ 0 = ground arith in
      let b : k.dst_ip ≡ 0 = ground arith in
      let c : k.dst_port ≡ 80 = ground arith in
      let d : k.proto ≡ 6 = ground arith in
      (
        ground arith,
        λ j. record { src_ip = a j; dst_ip = b j; src_port = same j; dst_port = c j; proto = d j },
      )
]

pub find-eq-some :
    (h : Present) (o : Option ℕ) (i : ℕ) → find h o ≡ some i → (o ≡ some i) × (h i ≡ true)
find-eq-some h none i e = absurd cc
find-eq-some h (some j) i e = elim (Bool-cases (h j)) [
  | inl taken ↦
      let same : j ≡ i = some_inj (rw taken at e) in
      (ap some same, subst (λ x. h x ≡ true) same taken)
  | inr free ↦ let e' = rw free at e in absurd cc
]

-- Distinct keys do not share a position.
apart : (j k : FlowKey) (a b : ℕ) → j ≢ k → position j ≡ some a → position k ≡ some b → b ≢ a
apart j k a b ne e f same =
    ne ((position-eq-some j a e).1 ∙ ap key_of (sym same) ∙ sym (position-eq-some k b f).1)

find-update :
    (h : Present) (v : Bool) (o : Option ℕ) (b : ℕ)
    → ((a : ℕ) → o ≡ some a → b ≢ a)
    → find (update h b v) o ≡ find h o
find-update h v none b ne = refl
find-update h v (some a) b ne = rw (==_ne b a (ne a refl)) refl

next_of_lem :
    (n : ℕ) (h : Present) (next i : ℕ) (k : FlowKey) (next' : ℕ)
    → next_of n h next ≡ some (i, k, next')
    → (k ≡ key_of i) × (h i ≡ true) × (next ≤ i) × (next' ≡ i + 1) × (i < next + n)
next_of_lem zero h next i k next' e = absurd cc
next_of_lem (suc n) h next i k next' e = elim (Bool-cases (h next)) [
  | inl taken ↦
      let p : ◌≡◌ {A = ℕ × FlowKey × ℕ} (next, key_of next, next + 1) (i, k, next') =
        some_inj (rw taken at e) in
      let same : next ≡ i = ap (λ r. r.0) p in
      let key : key_of next ≡ k = ap (λ r. r.1) p in
      let after : next + 1 ≡ next' = ap (λ r. r.2) p in
      (
        sym key ∙ ap key_of same,
        subst (λ x. h x ≡ true) same taken,
        omega (arith, same),
        omega (arith, same, after),
        omega (arith, same),
      )
  | inr free ↦
      let r = next_of_lem n h (next + 1) i k next' (rw free at e) in
      (r.0, r.1, omega (arith, r.2), r.3, omega (arith, r.4))
]

position-key_of : (i : ℕ) → i < 1024 → position (key_of i) ≡ some i
position-key_of i h = ground arith

pub lookup-insert : (h : Present) (o : Option ℕ) → find (insert h o).0 o ≡ (insert h o).1
lookup-insert h none = refl
lookup-insert h (some i) = rw (==_self i) refl

pub lookup-remove : (h : Present) (o : Option ℕ) → find (remove h o) o ≡ none
lookup-remove h none = refl
lookup-remove h (some i) = rw (==_self i) refl

pub insert-ne :
    (h : Present) (j k : FlowKey) (o : Option ℕ)
    → j ≢ k
    → position k ≡ o
    → find (insert h o).0 (position j) ≡ find h (position j)
insert-ne h j k none ne e = refl
insert-ne h j k (some b) ne e = find-update h true (position j) b (λ a f. apart j k a b ne f e)

pub remove-ne :
    (h : Present) (j k : FlowKey) (o : Option ℕ)
    → j ≢ k
    → position k ≡ o
    → find (remove h o) (position j) ≡ find h (position j)
remove-ne h j k none ne e = refl
remove-ne h j k (some b) ne e = find-update h false (position j) b (λ a f. apart j k a b ne f e)

pub iterate-lookup :
    (h : Present) (next i : ℕ) (k : FlowKey) (next' : ℕ)
    → next_of (1024 - next) h next ≡ some (i, k, next')
    → (find h (position k) ≡ some i) × (next < next') × (next' ≤ 1024)
iterate-lookup h next i k next' e =
    let (key, taken, low, after, high) = next_of_lem (1024 - next) h next i k next' e in
    let small : i < 1024 = omega arith in
    (rw (ap position key ∙ position-key_of i small, taken) refl, omega arith, omega arith)

abbrev pub server_hash : FlowHash
server_hash = record {
  Hash = Present;
  lookup = λ h k. find h (position k);
  add_key = λ h k. insert h (position k);
  del_key = λ h k. remove h (position k);
  iterate = λ h next. next_of (1024 - next) h next;
  slots = 1024;
  lookup-lt = λ h k i e. (position-eq-some k i (find-eq-some h (position k) i e).0).0;
  lookup_inj = λ h j k i e f.
      (position-eq-some j i (find-eq-some h (position j) i e).0).1
      ∙ sym (position-eq-some k i (find-eq-some h (position k) i f).0).1;
  lookup-add_self = λ h k. lookup-insert h (position k);
  lookup-add_ne = λ h j k ne. insert-ne h j k (position k) ne refl;
  lookup-del_self = λ h k. lookup-remove h (position k);
  lookup-del_ne = λ h j k ne. remove-ne h j k (position k) ne refl;
  iterate_lem = iterate-lookup;
}
