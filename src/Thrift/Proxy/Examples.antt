-- ===== src/Thrift/Proxy/Examples.antt =====
-- A request at concrete values, over a connection that ends before a response.
use monolake.Base.{ℕ, [], ◌∷◌, none, some, get_elem?, ok, ◌≡◌, arith}
use monolake.Selector.{LoadBalancer, lb_round_robin}
use monolake.Selector.Examples.{first_index, first_index-laws}
use monolake.Selector.Ready.{IsReady}
use monolake.Thrift.Proxy.{
  Endpoint, socket, unix, Pool, Sent, send_request, send_request-Exchanged, Exchanged,
}

abbrev ends : Pool ℕ ℕ
ends = record {
  Conn = ℕ;
  Req = ℕ;
  Resp = ℕ;
  IoError = ℕ;
  unexpected_eof = 0;
  connect = λ key. ok 1;
  send_and_flush = λ io req. ok io;
  next = λ io. none;
}

abbrev balancer : LoadBalancer first_index (Endpoint ℕ ℕ)
balancer = lb_round_robin (record { collection = socket 10 ∷ unix 20 ∷ []; next_idx = 1 })

send_request-Exchanged_example :
    (sent : Sent first_index ℕ ℕ ends) × (balancer' : LoadBalancer first_index (Endpoint ℕ ℕ))
    × (ep : Endpoint ℕ ℕ) × (i : ℕ) × (send_request first_index ℕ ℕ ends balancer 0 7
        ≡ some (sent, balancer'))
    × IsReady first_index (Endpoint ℕ ℕ) balancer'
    × (get_elem? (socket 10 ∷ unix 20 ∷ []) i ≡ some ep)
    × Exchanged first_index ℕ ℕ ends ep 7 sent
send_request-Exchanged_example =
    send_request-Exchanged first_index ℕ ℕ ends first_index-laws balancer 0 7 (omega arith)
