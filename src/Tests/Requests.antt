-- ===== src/Tests/Requests.antt =====
-- Ids and ends of requests, of a server with the id 70001.
use etcd_cr.Common.{
  List, ℕ, ◌/◌, ◌≡◌, ◌≢◌, refl, true, false, Option, none, [], ◌∷◌, arith, ok, err, panic,
}
use etcd_cr.Common.Maps.{lookup, has, Distinct}
use etcd_cr.Idutil.{suffix_span, next_ids, new_generator}
use etcd_cr.Idutil.Uniqueness.{new_generator_unique}
use etcd_cr.Wait.{WaitList, sent, new, register, fresh}
use etcd_cr.Wait.Steps.{Handing, Reached, registered}
use etcd_cr.Wait.Steps
use etcd_cr.Etcdserver.{
  PutRequest, EtcdServer, ApplyResult, begin_put, draw_id, register_id, new_server, end_request,
  context_done, deadline_exceeded, parse_propose_ctx_err,
}
use etcd_cr.Etcdserver.Draws.{at_start, drew, with_drawn}
use etcd_cr.Etcdserver.Ids.{begin_put-no_panic}
use etcd_cr.Etcdserver.Endings.{end_request-context_done}

abbrev put_key : PutRequest
put_key = record {
  key = 107 ∷ [];
  value = 118 ∷ [];
  lease = 0;
  ignore_value = false;
  ignore_lease = false;
}

abbrev first_server : EtcdServer ℕ
first_server = new_server 70001 1000000 1000 10 100

-- The server after a request has drawn its id, and that id.
abbrev second_server : EtcdServer ℕ
second_server = (draw_id (λ id. 20) first_server).0

abbrev drawn_ids : List ℕ
drawn_ids = with_drawn (draw_id (λ id. 20) first_server).1 []

begin_put-no_panic_example :
    ((drawn : ℕ) → has drawn drawn_ids ≡ true → (register_id drawn second_server).1 ≢ panic)
    × ((begin_put (λ id. 25) put_key second_server).1 ≢ panic)
begin_put-no_panic_example =
    begin_put-no_panic 70001 1000000 1000 10 100 1 (λ id. 25) put_key second_server drawn_ids
      (drew 0 first_server [] (λ id. 20) at_start) (omega arith)

new_generator_unique_example :
    Distinct (next_ids 1000 (new_generator 4465 1700000000000000000))
    × ((id : ℕ)
        → has id (next_ids 1000 (new_generator 4465 1700000000000000000)) ≡ true
        → id / suffix_span ≡ 4465)
new_generator_unique_example =
    new_generator_unique 1000 4465 1700000000000000000 (omega arith) (omega arith)

-- Request 5 waits.
abbrev five_waits : WaitList (Option (ApplyResult ℕ))
five_waits = record { m = (5, 0) ∷ []; chans = (0, fresh) ∷ []; made = 1 }

register-five : register 5 new ≡ ok (0, five_waits)
unfolding register new
register-five = refl

abbrev waiting : Handing (Option (ApplyResult ℕ))
waiting = record { list = five_waits; pending = [] }

waiting-Reached : Reached waiting
waiting-Reached =
    Steps.after (record { list = new; pending = [] }) waiting Steps.at_start
      (registered 5 0 five_waits register-five)

abbrev waiting_server : EtcdServer ℕ
waiting_server = record first_server { w = five_waits }

end_request-context_done_example :
    (s' : EtcdServer ℕ) × (end_request 5 2000 (context_done deadline_exceeded) waiting_server
      ≡ sent (s', err (parse_propose_ctx_err waiting_server deadline_exceeded 2000)))
    × (lookup 5 s'.w.m ≡ none)
    × ((other : ℕ) → 5 ≢ other → lookup other s'.w.m ≡ lookup other waiting_server.w.m)
end_request-context_done_example =
    end_request-context_done 5 2000 deadline_exceeded waiting_server waiting waiting-Reached refl
