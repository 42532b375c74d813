-- ===== src/Map.antt =====
-- src/map.c and include/tn/map.h: a map from pointers to pointers over the hash table of
-- aws-c-common, which is the parameter `TableOps`. Pointers are numbers.
pub mod Laws
pub mod Tests
use tcpeen.Base.{
  ℕ, Bool, true, false, Option, none, some, if◌then◌else◌, Status, success, error, failed,
}
use tcpeen.Memory.{Memory}

-- The functions of aws/common/hash_table.h on a table of type `H`. A status is `success` for
-- AWS_OP_SUCCESS. `find` gives the value of the element that is found, `put` tells whether the
-- element was created, and `remove` whether it was there.
pub record TableOps (H : Type 0) : Type 0 where
  pub init : ℕ → Status × H
  pub find : H → ℕ → Status × Option ℕ
  pub put : H → ℕ → ℕ → Status × Bool × H
  pub remove : H → ℕ → Status × Bool × H
  pub clear : H → H

-- `priv` is `none` for NULL.
pub record Map (H : Type 0) : Type 0 where
  pub priv : Option H
  pub capacity : ℕ

-- `sizeof(struct aws_hash_table)`
abbrev pub sizeof_table : ℕ
sizeof_table = 8

module _ {H : Type 0} (ops : TableOps H) where
  -- The test is for the result that tells of success, so that a table that is there is released at
  -- once; where there is none, `priv` points to memory that is released.
  unfoldable pub setup : Memory → ℕ → Status × Map H
  setup mem capacity =
      let fresh : Map H = record { priv = none; capacity = capacity } in
      let (r, table) = ops.init capacity in
      if mem.structs sizeof_table
      then (if failed r then (error, record fresh { priv = some table }) else (error, fresh))
      else (error, fresh)

  -- The functions below are called on a map with a table: without one they return an error here, and
  -- TN_ASSERT stops the code.
  pub get : Map H → ℕ → Status × Option ℕ
  get m key = elim m.priv [
    | none ↦ (error, none)
    | some h ↦
        let (r, found) = ops.find h key in
        if failed r
        then (error, none)
        else elim found [ none ↦ (error, none) | some value ↦ (success, some value) ]
  ]

  pub set : Map H → ℕ → ℕ → Status × Map H
  set m key value = elim m.priv [
    | none ↦ (error, m)
    | some h ↦
        let (r, created, h') = ops.put h key value in
        let m' : Map H = record m { priv = some h' } in
        if failed r then (error, m') else (if created then (success, m') else (error, m'))
  ]

  pub remove : Map H → ℕ → Status × Map H
  remove m key = elim m.priv [
    | none ↦ (error, m)
    | some h ↦
        let (r, removed, h') = ops.remove h key in
        let m' : Map H = record m { priv = some h' } in
        if failed r then (error, m') else (if removed then (success, m') else (error, m'))
  ]

  pub clear : Map H → Map H
  clear m = elim m.priv [ none ↦ m | some h ↦ record m { priv = some (ops.clear h) } ]
