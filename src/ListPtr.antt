-- ===== src/ListPtr.antt =====
-- src/list_ptr.c and include/tn/list_ptr.h: a stack of pointers in an array of fixed capacity.
pub mod Laws
use tcpeen.Base.{
  ℕ, suc, ◌+◌, ◌-◌, ◌*◌, ◌%◌, Bool, true, false, Option, none, some, List, [], ◌∷◌, if◌then◌else◌,
  leb, ◌==◌, get_elem?, get_or, set, u64_mod, add64, Status, success, error,
}

pub record ListPtr : Type 0 where
  pub cells : List ℕ
  pub capacity : ℕ
  pub index : ℕ

-- `acquire n` is the memory of TN_MEM_ACQUIRE(n), in words.
unfoldable pub setup : (ℕ → Option (List ℕ)) → ℕ → Status × ListPtr
setup acquire capacity = elim (acquire (capacity * 8 % u64_mod)) [
  | none ↦ (error, record { cells = []; capacity = capacity; index = 0 })
  | some memory ↦ (success, record { cells = memory; capacity = capacity; index = 0 })
]

pub cleanup : ListPtr → ListPtr
cleanup l = record l { cells = [] }

unfoldable pub push_back : ListPtr → ℕ → Status × ListPtr
push_back l item =
    if leb l.capacity l.index
    then (error, l)
    else (success, record l { cells = set l.cells l.index item; index = add64 l.index 1 })

-- `--list->index` runs only where the index is not 0.
pub pop_back : ListPtr → Status × Option ℕ × ListPtr
pop_back l =
    if l.index == 0
    then (error, none, l)
    else (success, get_elem? l.cells (l.index - 1), record l { index = l.index - 1 })

pub count : ListPtr → ℕ
count l = l.index

pub clear : ListPtr → ListPtr
clear l = record l { index = 0 }

pub get : ListPtr → ℕ → Option ℕ
get l index = get_elem? l.cells index

-- Out of range the read gives 0 here, and the write changes nothing.
pub swap : ListPtr → ℕ → ℕ → ListPtr
swap l index1 index2 =
    let tmp = get_or l.cells index1 0 in
    let cells = set l.cells index1 (get_or l.cells index2 0) in
    record l { cells = set cells index2 tmp }

-- The last entry takes the place of the one that is removed.
pub remove : ListPtr → ℕ → Status × ListPtr
remove l index = if l.index == 0 then (error, l) else (
  success,
  record l { cells = set l.cells index (get_or l.cells (l.index - 1) 0); index = l.index - 1 },
)
