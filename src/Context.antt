-- ===== src/Context.antt =====
-- src/tcp_context.c and include/tn/tcp_context.h: what the connections of a load generator share.
-- A loop of libuv is a number.
use tcpeen.Base.{ℕ, Option, none, some, List, [], ◌∷◌, if◌then◌else◌, Status, success, error_inval}
use tcpeen.Memory.{Memory}

pub record Config : Type 0 where
  pub uv_loop : Option ℕ

pub record Context : Type 0 where
  pub uv_loop : Option ℕ
  pub config : Option Config
  pub recv_msgs : ℕ
  pub recv_bytes : ℕ
  pub send_msgs : ℕ
  pub send_bytes : ℕ

-- What `tcp_context_delete` gives back.
pub data Part : Type 0 where
  config_part context_part : Part

-- After `memset`.
abbrev pub blank : Context
blank = record {
  uv_loop = none;
  config = none;
  recv_msgs = 0;
  recv_bytes = 0;
  send_msgs = 0;
  send_bytes = 0;
}

-- The parts that are released; the pointer of the caller stays as it is.
pub delete : Option Context → List Part
delete none = []
delete (some ctx) = elim ctx.config [
  | none ↦ context_part ∷ []
  | some c ↦ config_part ∷ context_part ∷ []
]

-- `left` is what the memory of the configuration holds, which is not cleared. The parts that are
-- released, and the context.
pub new : Memory → Config → List Part × Option Context
unfolding delete
new mem left =
    if mem.structs 48
    then (if mem.structs 8
        then ([], some (record blank { config = some left }))
        else (delete (some blank), none))
    else ([], none)

pub set_config : Option Context → Option Config → Status × Option Context
set_config none cfg = (error_inval, none)
set_config (some ctx) cfg = elim ctx.config [
  | none ↦ (error_inval, some ctx)
  | some old ↦ elim cfg [
    | none ↦ (error_inval, some ctx)
    | some c ↦ (success, some (record ctx { config = some c }))
  ]
]

unfoldable pub get_loop : Option Context → Option ℕ
get_loop none = none
get_loop (some ctx) = elim ctx.config [ none ↦ none | some c ↦ c.uv_loop ]
