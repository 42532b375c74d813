-- ===== src/ListBlock.antt =====
-- src/list_block.c and include/tn/list_block.h: a list over the array list of aws-c-common, which is
-- the parameter `ArrayOps`. An item is a number.
use tcpeen.Base.{
  ℕ, Option, none, some, List, ◌*◌, ◌%◌, if◌then◌else◌, u64_mod, sub64, Status, success, error,
  failed,
}
use tcpeen.Memory.{Memory}

-- The functions of aws/common/array_list.h on a list of type `L`. A status is `success` for
-- AWS_OP_SUCCESS.
pub record ArrayOps (L : Type 0) : Type 0 where
  pub init_static : List ℕ → ℕ → ℕ → L
  pub clear : L → L
  pub clean_up : L → L
  pub length : L → ℕ
  pub push_back : L → ℕ → Status × L
  pub back : L → Status × Option ℕ
  pub pop_back : L → Status × L
  pub get_at : L → ℕ → Status × Option ℕ
  pub swap : L → ℕ → ℕ → L

-- `impl` is `priv_impl`, with the data that it stands on.
pub record ListBlock (L : Type 0) : Type 0 where
  pub impl : Option L
  pub capacity : ℕ
  pub item_size : ℕ

-- `sizeof(struct aws_array_list)`
abbrev pub sizeof_array_list : ℕ
sizeof_array_list = 40

module _ {L : Type 0} (ops : ArrayOps L) where
  pub setup : Memory → ℕ → ℕ → Status × ListBlock L
  setup mem capacity item_size =
      let fresh : ListBlock L = record { impl = none; capacity = 0; item_size = 0 } in
      elim (mem.bytes (capacity * 8 % u64_mod)) [
        | none ↦ (error, fresh)
        | some priv_data ↦
            if mem.structs sizeof_array_list
            then (
              success,
              record {
                impl = some (ops.clear (ops.init_static priv_data capacity item_size));
                capacity = capacity;
                item_size = item_size;
              },
            )
            else (error, fresh)
      ]

  pub cleanup : ListBlock L → ListBlock L
  cleanup l = record l { impl = none }

  -- The functions below are called after a setup that succeeded: without `priv_impl` they return
  -- an error here, and the code passes NULL to the library. The index that the item gets is
  -- written also where the push fails.
  pub push_back : ListBlock L → ℕ → Status × ℕ × ListBlock L
  push_back l item = elim l.impl [
    | none ↦ (error, 0, l)
    | some impl ↦
        let (r, impl') = ops.push_back impl item in
        if failed r
        then (error, ops.length impl, record l { impl = some impl' })
        else (success, ops.length impl, record l { impl = some impl' })
  ]

  pub pop_back : ListBlock L → Status × Option ℕ × ListBlock L
  pop_back l = elim l.impl [
    | none ↦ (error, none, l)
    | some impl ↦
        let (r, item) = ops.back impl in
        let (t, impl') = ops.pop_back impl in
        if failed r
        then (error, item, l)
        else (if failed t
            then (error, item, record l { impl = some impl' })
            else (success, item, record l { impl = some impl' }))
  ]

  pub count : ListBlock L → Status × ℕ
  count l = elim l.impl [ none ↦ (error, 0) | some impl ↦ (success, ops.length impl) ]

  pub clear : ListBlock L → Status × ListBlock L
  clear l = elim l.impl [
    | none ↦ (error, l)
    | some impl ↦ (success, record l { impl = some (ops.clear impl) })
  ]

  pub get : ListBlock L → ℕ → Status × Option ℕ
  get l index = elim l.impl [ none ↦ (error, none) | some impl ↦ ops.get_at impl index ]

  -- The last item takes the place of the one that is removed.
  pub remove : ListBlock L → ℕ → Status × ListBlock L
  remove l index = elim l.impl [
    | none ↦ (error, l)
    | some impl ↦
        let swapped = ops.swap impl index (sub64 (ops.length impl) 1) in
        let (r, impl') = ops.pop_back swapped in (r, record l { impl = some impl' })
  ]
