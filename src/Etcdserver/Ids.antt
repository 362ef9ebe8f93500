-- ===== src/Etcdserver/Ids.antt =====
-- `Register` in etcdserver/v3_server.go never meets an id that waits already.
use etcd_cr.Common.{
  List, if◌then◌else◌, request_too_large, ℕ, ◌%◌, ◌<◌, ◌≡◌, ◌≢◌, refl, sym, subst, Bool, true,
  false, some, Result, ok, err, panic, arith, ltb,
}
use etcd_cr.Common.Maps.{has, lookup}
use etcd_cr.Idutil.{next, new_generator, suffix_span}
use etcd_cr.Etcdserver.{
  EtcdServer, PutRequest, admit, draw_id, register_id, register_draw, begin_request, begin_put,
  new_server, check_put_request,
}
use etcd_cr.Etcdserver.Draws.{Run, new_id, Issued-Run, Issued-new, register_id-free, free_id}

check_put_request-no_panic : (r : PutRequest) → check_put_request r ≢ panic
unfolding check_put_request
check_put_request-no_panic r h = ground arith

module _ {P : Type 0} where
  register_id-no_panic :
      (id : ℕ) (s : EtcdServer P)
      → ((ch : ℕ) → lookup id s.w.m ≢ some ch)
      → (register_id id s).1 ≢ panic
  register_id-no_panic id s n =
      subst (λ p. p.1 ≢ panic) (sym (register_id-free id s (free_id id s n))) (λ h. cc)

  passed_on :
      (c : Result (Unit {0})) (p : EtcdServer P × Result (ℕ × ℕ)) (s : EtcdServer P)
      → c ≢ panic
      → p.1 ≢ panic
      → (let ended : EtcdServer P × Result (ℕ × ℕ) = elim c [
        | ok _ ↦ p
        | err e ↦ (s, err e)
        | panic ↦ (s, panic)
      ] in
          ended.1 ≢ panic)
  passed_on (ok _) p s n m = m
  passed_on (err e) p s n m = λ h. cc
  passed_on panic p s n m = absurd (n refl)

  admit-no_panic : (s : EtcdServer P) → admit s ≢ panic
  unfolding admit
  admit-no_panic s h = ground arith

  begin_request-no_panic :
      (size : ℕ → ℕ) (s : EtcdServer P)
      → ((ch : ℕ) → lookup (next s.req_id_gen).0 s.w.m ≢ some ch)
      → (begin_request size 0 s).1 ≢ panic
  unfolding begin_request draw_id register_draw
  begin_request-no_panic size s n =
      passed_on (admit s) (register_draw 0 (draw_id size s)) s (admit-no_panic s)
        (by_size (ltb s.max_request_bytes (size (next s.req_id_gen).0)))
    where
      drawn_server : EtcdServer P
      drawn_server = record s { req_id_gen = (next s.req_id_gen).1 }

      by_size :
          (large : Bool)
          → (register_draw 0
              (drawn_server, if large then err request_too_large else ok (next s.req_id_gen).0)).1
            ≢ panic
      by_size true = λ h. cc
      by_size false = register_id-no_panic (next s.req_id_gen).0 drawn_server n

  -- The id of a request never waits already when it is registered, so `Register` does not panic,
  -- however the draws and registrations of concurrent requests, the triggers and the moves of the
  -- indices since the start interleave, for fewer than 2^48 draws: neither for a drawn id that is not
  -- registered yet, nor in a `Put` that the gRPC server passes on at once.
  pub begin_put-no_panic :
      (id now max_request_bytes election_ticks tick_ms n : ℕ) (size : ℕ → ℕ) (r : PutRequest)
      (s : EtcdServer P) (ids : List ℕ)
      → Run (new_server id now max_request_bytes election_ticks tick_ms) n s ids
      → n < suffix_span
      → ((drawn : ℕ) → has drawn ids ≡ true → (register_id drawn s).1 ≢ panic)
        × ((begin_put size r s).1 ≢ panic)
  unfolding begin_put
  begin_put-no_panic id now max_request_bytes election_ticks tick_ms n size r s ids run few =
      let first = (new_generator (id % 65536) now).suffix in
      let i =
        Issued-Run (id % 65536) first (new_server id now max_request_bytes election_ticks tick_ms) n
          s ids (Issued-new id now max_request_bytes election_ticks tick_ms) (omega arith) run in
      (
        λ drawn there. register_id-no_panic drawn s (λ ch. i.apart drawn ch there),
        passed_on (check_put_request r) (begin_request size 0 s) s (check_put_request-no_panic r) (
            begin_request-no_panic size s (λ ch h.
              new_id (id % 65536) first n s ids few i (next s.req_id_gen).0
                (i.waiting (next s.req_id_gen).0 ch h) refl)),
      )
