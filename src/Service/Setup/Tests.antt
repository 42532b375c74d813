-- ===== src/Service/Setup/Tests.antt =====
-- A host with memory of just the size that was asked for.
use tcpeen.Base.{
  ℕ, ◌≡◌, refl, ap, sym, ◌∙◌, none, some, List, length, replicate, length-replicate, success, arith,
}
use mathlib.Core.Option.{some-injective}
use tcpeen.Bytes.Plain.{plain, plain-IsByteOps}
use tcpeen.Channel.Tests.{mem, mem-IsMemory}
use tcpeen.Events.Tests.{plain_event}
use tcpeen.Service.{WriteReq, Counters}
use tcpeen.Service.Setup.{Host, setup}
use tcpeen.Service.Setup.Requests.{IsHost, IsPlentyHost}
use tcpeen.Service.Setup.Laws.{Idle, setup-Idle}

abbrev zeroed_req : WriteReq
zeroed_req = record { id = 0; channel = none; buffer = none; base = none; len = 0 }

abbrev host : Host
host = record {
  mem = mem;
  events = λ n. some (replicate n plain_event);
  reqs = λ n. some (replicate n zeroed_req);
  ops = plain;
}

replicated {ℓ} :
    {A : Type ℓ} (n : ℕ) (x : A) (m : List A) → some (replicate n x) ≡ some m → length m ≡ n
replicated n x m e = ap length (sym (some-injective (replicate n x) m e)) ∙ length-replicate n x

host-IsHost : IsHost host
host-IsHost = record {
  mem = mem-IsMemory;
  events = λ n m e. omega (arith, replicated n plain_event m e);
  reqs = λ n m e. omega (arith, replicated n zeroed_req m e);
  ops = plain-IsByteOps;
}

host-IsPlentyHost : IsPlentyHost host
host-IsPlentyHost = record {
  mem = record {
    bytes_there = λ n. (replicate n 0, refl);
    words_there = λ n. (replicate n 0, refl);
    structs_there = λ n. refl;
  };
  events_there = λ n. (replicate n plain_event, refl);
  reqs_there = λ n. (replicate n zeroed_req, refl);
}

abbrev counters : Counters
counters = record { send_msgs = 0; send_bytes = 0; recv_msgs = 0; recv_bytes = 0 }

setup-Idle_example : let (t, r) = setup host counters in (t ≡ success) × Idle r
setup-Idle_example = setup-Idle host host-IsHost counters host-IsPlentyHost
