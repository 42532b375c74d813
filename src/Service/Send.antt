-- ===== src/Service/Send.antt =====
-- `tcp_service_send`. A write request is the index of the request in `write_reqs`.
pub mod Inv
pub mod Changes
pub mod Laws
pub mod Tests
use tcpeen.Base.{
  ℕ, none, some, List, get_elem?, set, if◌then◌else◌, Status, success, error, send_noreq,
  send_nobuf, failed,
}
use tcpeen.Bytes.{ByteOps}
use tcpeen.Buffer
use tcpeen.Buffer.{Buffer}
use tcpeen.Queue
use tcpeen.Pool
use tcpeen.Pool.{Pool}
use tcpeen.Service.{Service, change_req}

-- The end of the function: the request is pushed before anything leaves the free queues.
pub submit : Service → ℕ → Status × Service
submit s req =
    let (r, ready) = Queue.push s.write_reqs_ready req in
    let s' : Service = record s { write_reqs_ready = ready } in
    if failed r then (error, s') else (
      success,
      record s' {
        pool_write = Pool.pop_cached s'.pool_write;
        write_reqs_free = Queue.pop_cached s'.write_reqs_free;
      },
    )

module _ (ops : ByteOps) where
  -- The bytes are written to buffer `i`, which the request then points to.
  pub write_request : Service → ℕ → ℕ → Buffer → ℕ → List ℕ → Status × Service
  unfolding submit
  write_request s channel req b i bytes =
      let (r, b') = Buffer.write ops b bytes in
      let s' : Service = record s {
        pool_write = record (s.pool_write) { buffers = set s.pool_write.buffers i b' };
      } in
      let ready = change_req s' req (λ w. record w {
        channel = some channel;
        base = Buffer.read_ptr b';
        len = Buffer.get_length b';
      }) in
      if failed r then (send_nobuf, s') else submit ready req

  -- A free write request and a free buffer are looked at, and stay in their queues until the end.
  pub send : Service → ℕ → List ℕ → Status × Service
  unfolding write_request
  send s channel bytes =
      let (r, req, free) = Queue.peek s.write_reqs_free in
      let s₁ : Service = record s { write_reqs_free = free } in
      if failed r then (send_noreq, s₁) else elim req [
        | none ↦ (send_noreq, s₁)
        | some w ↦
            let (t, buf, pool) = Pool.peek s₁.pool_write in
            let s₂ =
              change_req (record s₁ { pool_write = pool }) w (λ q. record q { buffer = buf }) in
            if failed t then (send_nobuf, s₂) else elim buf [
              | none ↦ (send_nobuf, s₂)
              | some i ↦ elim (get_elem? s₂.pool_write.buffers i) [
                | none ↦ (send_nobuf, s₂)
                | some b ↦ write_request s₂ channel w b i bytes
              ]
            ]
      ]
