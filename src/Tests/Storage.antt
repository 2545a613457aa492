-- ===== src/Tests/Storage.antt =====
-- Runs of src/core/storage-batch.ts over a storage that takes every write, and over one that refuses
-- those of one key.
use cross_tab_worker_databus.Base.{
  ℕ, zero, suc, ◌<◌, ◌≡◌, refl, ap, Bool, true, false, Option, none, some, List, [], ◌∷◌, arith,
  if◌then◌else◌, is_some, length, drop, nat_has_eq,
}
use cross_tab_worker_databus.Base.JsMap.{
  JsMap, get, has, set, delete, get-set, get-delete, UniqueKeys,
}
use cross_tab_worker_databus.Base.JsString.{Text, text, text_has_eq, eqb}
use cross_tab_worker_databus.Storage.Writer.{
  keys, Storage, BatchingStorageWriter, init, set_item, get_item, write, flush,
  initial_retry_delay_ms,
}
use cross_tab_worker_databus.Storage.Reads.{StorageLaws, KeptOrGivenUp, flush-KeptOrGivenUp}
use cross_tab_worker_databus.Storage.Flushing.{flush-drains}
use cross_tab_worker_databus.Storage.Attempts.{flush_times, flush_times-pending_empty}
use cross_tab_worker_databus.Storage.Keys.{KeyLaws, has-keys}
use cross_tab_worker_databus.Storage.Live.{
  Event, set_called, remove_called, flush_called, microtask_runs, timer_fires, run, IsLive,
  run-init-IsLive,
}

abbrev refusing : (Text → Bool) → Storage (JsMap Text Text)
refusing bad = record {
  get_item = λ key s. get key s;
  set_item = λ key value s. if bad key then none else some (set key value s);
  remove_item = λ key s. some (delete key s);
  clear = λ s. some [];
  length = λ s. length s;
  key = λ index s. elim (drop index s) [ [] ↦ none | e ∷ rest ↦ some e.0 ];
}

refusing-laws : (bad : Text → Bool) → StorageLaws (refusing bad)
refusing-laws bad = record {
  get-set_item = λ j key value s s' h. ground (arith, get-set j key value s);
  get-remove_item = λ j key s s' h. ground (arith, get-delete j key s);
}

abbrev memory : Storage (JsMap Text Text)
memory = refusing (λ key. false)

abbrev full : Storage (JsMap Text Text)
full = refusing (eqb (text "big"))

abbrev start : BatchingStorageWriter (JsMap Text Text)
start = init ((text "old", text "0") ∷ [])

abbrev queued : BatchingStorageWriter (JsMap Text Text)
queued = set_item start (text "big") (text "1")

queued-UniqueKeys : UniqueKeys queued.pending
unfolding set get
queued-UniqueKeys = (refl, tt)

flush-KeptOrGivenUp_example : KeptOrGivenUp full queued (flush full queued) (text "big")
flush-KeptOrGivenUp_example =
    flush-KeptOrGivenUp full (refusing-laws (eqb (text "big"))) queued (text "big")
      queued-UniqueKeys

memory-Accepts :
    (key : Text) (value : Option Text) (s : JsMap Text Text)
    → is_some (write memory key value s) ≡ true
memory-Accepts key none s = refl
memory-Accepts key (some value) s = refl

flush-drains_example :
    ((flush memory queued).pending ≡ [])
    × ((flush memory queued).retry_count ≡ [])
    × ((flush memory queued).retry_handle ≡ none)
    × ((flush memory queued).retry_delay_ms ≡ initial_retry_delay_ms)
    × (memory.get_item (text "big") (flush memory queued).storage
        ≡ get_item memory queued (text "big"))
flush-drains_example =
    flush-drains memory memory-Accepts (refusing-laws (λ key. false)) queued (text "big")
      queued-UniqueKeys

flush_times-pending_empty_example : (flush_times full 5 queued).pending ≡ []
unfolding set
flush_times-pending_empty_example = flush_times-pending_empty full 5 queued (omega arith)

abbrev events : List Event
events =
    set_called (text "big") (text "1")
    ∷ microtask_runs
    ∷ remove_called (text "old")
    ∷ timer_fires
    ∷ flush_called
    ∷ []

run-init-IsLive_example : IsLive full (run full (init ((text "old", text "0") ∷ [])) events)
run-init-IsLive_example = run-init-IsLive full ((text "old", text "0") ∷ []) events

memory_key-listed :
    (s : JsMap Text Text) (index : ℕ) (key : Text)
    → index < length s
    → memory.key index s ≡ some key
    → is_some (get key s) ≡ true
unfolding get
memory_key-listed [] index key h e = absurd (omega arith)
memory_key-listed ((k, v) ∷ s) zero key h e = ground arith
memory_key-listed ((k, v) ∷ s) (suc index) key h e =
    ground (arith, memory_key-listed s index key (omega arith) e)

memory_key-found :
    (s : JsMap Text Text) (key : Text)
    → is_some (get key s) ≡ true
    → (index : ℕ) × (index < length s) × (memory.key index s ≡ some key)
unfolding get
memory_key-found [] key h = absurd (ground arith)
memory_key-found ((k, v) ∷ s) key h = elim (text_has_eq.dec k key) [
  | yes q ↦ (0, omega arith, ap some q)
  | no q ↦ let (i, l, e) = memory_key-found s key (ground arith) in (suc i, omega arith, e)
]

refusing-KeyLaws : (bad : Text → Bool) → KeyLaws (refusing bad)
refusing-KeyLaws bad = record {
  listed = λ s index key h e. memory_key-listed s index key h e;
  found = λ s key h. memory_key-found s key h;
}

has-keys_example : has (text "old") (keys full queued) ≡ is_some (get_item full queued (text "old"))
has-keys_example =
    has-keys full (refusing-KeyLaws (eqb (text "big"))) queued (text "old") queued-UniqueKeys
