-- ===== src/Map/Tests.antt =====
-- A map over a table that remembers the last key and its value.
use tcpeen.Base.{ℕ, true, Option, none, some, ◌==◌, if◌then◌else◌, success}
use tcpeen.Memory.{Memory}
use tcpeen.Map.{TableOps}

abbrev last : TableOps (Option (ℕ × ℕ))
last = record {
  init = λ n. (success, none);
  find =
      λ t key. (success, elim t [ none ↦ none | some e ↦ if e.0 == key then some e.1 else none ]);
  put = λ t key value. (success, true, some (key, value));
  remove = λ t key. (success, true, none);
  clear = λ t. none;
}

abbrev memory : Memory
memory = record { bytes = λ n. none; words = λ n. none; structs = λ n. true }
