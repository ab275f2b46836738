-- ===== src/Table/Lifetime.antt =====
-- src/parser.c, `parser_flow_table_create` and `parser_flow_table_free`: what is allocated and given
-- back, on every path.
--
-- The allocators are DPDK's: whether each gives memory is an argument, and so is the hash table
-- that `rte_hash_create` returns.
use hyper_dpi.Prelude.{
  ℕ, ◌≡◌, ◌⊎◌, inl, inr, refl, Bool, true, false, if◌then◌else◌, Option, none, some, ◌>>=◌, List,
  [], ◌∷◌,
}
use hyper_dpi.Traffic.{non_dpi}
use hyper_dpi.Packet.{FlowKey}
use hyper_dpi.Flow.{new_state}
use hyper_dpi.Table.{FlowHash, FlowTable}
use hyper_dpi.Table.Update.{TableOk}

-- The objects that a worker allocates.
pub data Resource : Type 0 where
  table_memory hash_memory state_memory scratch_memory : Resource

abbrev pub Heap : Type 0
Heap = List Resource

abbrev pub same_resource : Resource → Resource → Bool
same_resource table_memory table_memory = true
same_resource hash_memory hash_memory = true
same_resource state_memory state_memory = true
same_resource scratch_memory scratch_memory = true
same_resource _ _ = false

abbrev pub keep_first : Resource → Option Heap → Option Heap
keep_first x none = none
keep_first x (some heap) = some (x ∷ heap)

-- Giving an object back; it fails where nothing of the kind is allocated.
unfoldable pub release : Resource → Heap → Option Heap
release r [] = none
release r (x ∷ heap) =
    let rest = keep_first x (release r heap) in if same_resource x r then some heap else rest

module _ (fh : FlowHash) where
  open fh use {Hash, lookup}

  -- The last step: the states, which `rte_zmalloc` clears.
  unfoldable pub with_states : Bool → Hash → ℕ → Heap → Option (Option (FlowTable fh) × Heap)
  with_states true h timeout_cycles heap = some (
    some (record {
      h = h;
      states = λ _. new_state non_dpi;
      timeout_cycles = timeout_cycles;
      call_count = 0;
    }),
    state_memory ∷ heap,
  )
  with_states false h timeout_cycles heap = do
    heap' ← release hash_memory heap
    heap'' ← release table_memory heap'
    some (none, heap'')

  unfoldable pub with_hash : Option Hash → Bool → ℕ → Heap → Option (Option (FlowTable fh) × Heap)
  with_hash none states_ok timeout_cycles heap = do
    heap' ← release table_memory heap
    some (none, heap')
  with_hash (some h) states_ok timeout_cycles heap =
      with_states states_ok h timeout_cycles (hash_memory ∷ heap)

  -- The outer `none` is a call of a free that is not allowed.
  unfoldable pub flow_table_create :
      Bool → Option Hash → Bool → ℕ → Heap → Option (Option (FlowTable fh) × Heap)
  flow_table_create table_ok created states_ok timeout_cycles heap =
      if table_ok
      then with_hash created states_ok timeout_cycles (table_memory ∷ heap)
      else some (none, heap)

  unfoldable pub flow_table_free : Option (FlowTable fh) → Heap → Option Heap
  flow_table_free none heap = some heap
  flow_table_free (some ft) heap = do
    heap' ← release state_memory heap
    heap'' ← release hash_memory heap'
    release table_memory heap''

  -- What a call can come to: it fails and leaves nothing allocated, or it makes a well-formed table
  -- with no flows, and freeing the table leaves nothing allocated.
  pub record Created (timeout_cycles : ℕ) (heap : Heap) (ft : FlowTable fh) (heap' : Heap)
      : Type 0 where
    pub table_ok : TableOk fh ft
    pub no_flows : (k : FlowKey) → lookup ft.h k ≡ none
    pub timeout : ft.timeout_cycles ≡ timeout_cycles
    pub freed : flow_table_free (some ft) heap' ≡ some heap

  -- Creating a table frees only what is allocated. It fails and leaves the heap as it was,
  -- whichever of its three allocations fails; or it succeeds with an empty, well-formed table with
  -- this timeout, and freeing this table leaves the heap as it was. A hash table that
  -- `rte_hash_create` returns holds no key.
  pub flow_table_create-Created :
      (table_ok : Bool) (created : Option Hash) (states_ok : Bool) (timeout_cycles : ℕ)
      (heap : Heap)
      → ((h : Hash) (k : FlowKey) → created ≡ some h → lookup h k ≡ none)
      → let r = flow_table_create table_ok created states_ok timeout_cycles heap in
        (r ≡ some (none, heap))
        ⊎ ((ft : FlowTable fh) × (heap' : Heap) × (r ≡ some (some ft, heap'))
            × Created timeout_cycles heap ft heap')
  unfolding flow_table_create with_hash with_states flow_table_free release
  flow_table_create-Created false created states_ok timeout_cycles heap empty = inl refl
  flow_table_create-Created true none states_ok timeout_cycles heap empty = inl refl
  flow_table_create-Created true (some h) false timeout_cycles heap empty = inl refl
  flow_table_create-Created true (some h) true timeout_cycles heap empty = inr (
    _,
    _,
    refl,
    record {
      table_ok = λ k i e. let n = empty h k refl in absurd cc;
      no_flows = λ k. empty h k refl;
      timeout = refl;
      freed = refl;
    },
  )
