-- ===== src/Storage/Writer.antt =====
-- src/core/storage-batch.ts: the class `BatchingStorageWriter`. The wrapped `StorageLike` is a
-- parameter: a call that throws has no result and leaves the storage as it was, and no call re-enters
-- the writer. The flushes that `queueMicrotask` holds are a number, the armed timer its delay.
use cross_tab_worker_databus.Base.{
  ℕ, zero, suc, ◌+◌, ◌-◌, ◌*◌, min, Bool, true, false, Option, none, some, List, [], ◌∷◌, ◌++◌,
  dec_le, ◌==◌, if◌then◌else◌, is_some, length, drop,
}
use cross_tab_worker_databus.Base.JsMap.{JsMap, get, set, delete}
use cross_tab_worker_databus.Base.JsString.{Text, text_has_eq}

-- `StorageLike` (src/core/environment.ts), with `none` where a write throws.
pub record Storage (S : Type 0) : Type 0 where
  pub get_item : Text → S → Option Text
  pub set_item : Text → Text → S → Option S
  pub remove_item : Text → S → Option S
  pub clear : S → Option S
  pub length : S → ℕ
  pub key : ℕ → S → Option Text

abbrev pub initial_retry_delay_ms : ℕ
initial_retry_delay_ms = 50

abbrev pub max_retry_delay_ms : ℕ
max_retry_delay_ms = 1_600

abbrev pub max_retry_attempts : ℕ
max_retry_attempts = 5

pub record BatchingStorageWriter (S : Type 0) : Type 0 where
  pub storage : S
  -- A `none` is a pending delete.
  pub pending : JsMap Text (Option Text)
  pub retry_count : JsMap Text ℕ
  pub flush_scheduled : Bool
  pub retry_handle : Option ℕ
  pub retry_delay_ms : ℕ
  pub queued : ℕ
  pub warned : List Text

abbrev pub or_zero : Option ℕ → ℕ
or_zero none = 0
or_zero (some n) = n

module _ {S : Type 0} where
  abbrev pub init : S → BatchingStorageWriter S
  init s = record {
    storage = s;
    pending = [];
    retry_count = [];
    flush_scheduled = false;
    retry_handle = none;
    retry_delay_ms = initial_retry_delay_ms;
    queued = 0;
    warned = [];
  }

  abbrev pub cancel_retry : BatchingStorageWriter S → BatchingStorageWriter S
  cancel_retry w = record w { retry_handle = none }

  abbrev pub schedule_retry : BatchingStorageWriter S → BatchingStorageWriter S
  schedule_retry w = record w {
    retry_handle = some w.retry_delay_ms;
    retry_delay_ms = min max_retry_delay_ms (w.retry_delay_ms * 2);
  }

  abbrev pub schedule_flush : BatchingStorageWriter S → BatchingStorageWriter S
  schedule_flush w = record w {
    flush_scheduled = true;
    queued = if w.flush_scheduled then w.queued else w.queued + 1;
  }

  abbrev pub discard_pending : BatchingStorageWriter S → BatchingStorageWriter S
  discard_pending w = record w {
    pending = [];
    flush_scheduled = false;
    retry_handle = none;
    retry_count = [];
    retry_delay_ms = initial_retry_delay_ms;
  }

  abbrev pub remove_item : BatchingStorageWriter S → Text → BatchingStorageWriter S
  remove_item w key = schedule_flush (record w { pending = set key none w.pending })

  abbrev pub set_item : BatchingStorageWriter S → Text → Text → BatchingStorageWriter S
  set_item w key value = schedule_flush (record w { pending = set key (some value) w.pending })

  abbrev pub attempts : BatchingStorageWriter S → Text → ℕ
  attempts w key = or_zero (get key w.retry_count) + 1

  -- What `flush` starts with.
  abbrev pub entered : BatchingStorageWriter S → BatchingStorageWriter S
  entered w = record w { flush_scheduled = false; retry_handle = none }

  -- The key leaves the queue, written or given up.
  abbrev pub forget : Text → BatchingStorageWriter S → BatchingStorageWriter S
  forget key w = record w { pending = delete key w.pending; retry_count = delete key w.retry_count }

module _ {S : Type 0} (backend : Storage S) where
  -- With the flag whether the storage threw.
  abbrev pub clear : BatchingStorageWriter S → BatchingStorageWriter S × Bool
  clear w = elim (backend.clear w.storage) [
    | none ↦ (discard_pending w, true)
    | some s ↦ (record (discard_pending w) { storage = s }, false)
  ]

  abbrev pub get_item : BatchingStorageWriter S → Text → Option Text
  get_item w key = elim (get key w.pending) [
    | some value ↦ value
    | none ↦ backend.get_item key w.storage
  ]

  -- One write of the flush: a `none` value is a delete.
  abbrev pub write : Text → Option Text → S → Option S
  write key none s = backend.remove_item key s
  write key (some value) s = backend.set_item key value s

  -- The loop over the snapshot of the queue.
  unfoldable pub flush_loop :
      List (Text × Option Text) → BatchingStorageWriter S → BatchingStorageWriter S
  flush_loop [] w = w
  flush_loop ((key, value) ∷ rest) w = elim (write key value w.storage) [
    | some s ↦ flush_loop rest (forget key (record w { storage = s }))
    | none ↦ elim (dec_le max_retry_attempts (attempts w key)) [
      | yes last ↦ flush_loop rest (forget key (record w { warned = w.warned ++ key ∷ [] }))
      | no more ↦ schedule_retry (record w { retry_count = set key (attempts w key) w.retry_count })
    ]
  ]

  -- The end of `flush`.
  abbrev pub settle : BatchingStorageWriter S → BatchingStorageWriter S
  settle w =
      if length w.pending == 0
      then record w { retry_delay_ms = initial_retry_delay_ms; retry_count = [] }
      else w

  unfoldable pub flush : BatchingStorageWriter S → BatchingStorageWriter S
  flush w = settle (flush_loop w.pending (entered w))

  -- A queued microtask, and the retry timer.
  unfoldable pub microtask : BatchingStorageWriter S → BatchingStorageWriter S
  microtask w = if w.queued == 0 then w else flush (record w { queued = w.queued - 1 })

  unfoldable pub retry_fires : BatchingStorageWriter S → BatchingStorageWriter S
  retry_fires w = if is_some w.retry_handle then flush (record w { retry_handle = none }) else w

  -- The loop of `keys` over the storage, from `index` for `n` more rounds.
  unfoldable pub stored_keys : S → ℕ → ℕ → JsMap Text (Unit {0}) → JsMap Text (Unit {0})
  stored_keys s index zero keys = keys
  stored_keys s index (suc n) keys =
      stored_keys s (index + 1) n
        (elim (backend.key index s) [ none ↦ keys | some key ↦ set key tt keys ])

  -- Its loop over the queue.
  unfoldable pub pending_keys :
      JsMap Text (Option Text) → JsMap Text (Unit {0}) → JsMap Text (Unit {0})
  pending_keys [] keys = keys
  pending_keys ((key, none) ∷ pending) keys = pending_keys pending (delete key keys)
  pending_keys ((key, some value) ∷ pending) keys = pending_keys pending (set key tt keys)

  abbrev pub keys : BatchingStorageWriter S → JsMap Text (Unit {0})
  keys w = pending_keys w.pending (stored_keys w.storage 0 (backend.length w.storage) [])

  abbrev pub key : BatchingStorageWriter S → ℕ → Option Text
  key w index = elim (drop index (keys w)) [ [] ↦ none | e ∷ rest ↦ some e.0 ]

  abbrev pub size : BatchingStorageWriter S → ℕ
  size w = length (keys w)
