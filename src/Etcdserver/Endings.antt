-- ===== src/Etcdserver/Endings.antt =====
-- The end of a request in etcdserver/v3_server.go and server.go: a result, a context that is done,
-- or a stopped server.
use etcd_cr.Common.{ℕ, ◌≡◌, ◌≢◌, refl, sym, ap, ◌∙◌, none, err, Option}
use etcd_cr.Common.Maps.{lookup, delete, lookup-delete_other, lookup-delete_same}
use etcd_cr.Wait.{sent, trigger}
use etcd_cr.Wait.Steps.{Handing, Reached}
use etcd_cr.Wait.Triggers.{trigger-returns}
use etcd_cr.Etcdserver.{
  EtcdServer, ApplyResult, ContextError, context_done, end_request, parse_propose_ctx_err,
}

module _ {P : Type 0} where
  -- A request whose context is done returns: `Trigger` neither blocks nor panics, the id waits no
  -- longer, every other request waits as before, and the error is the one of `parseProposeCtxErr`.
  pub end_request-context_done :
      (id start : ℕ) (e : ContextError) (s : EtcdServer P)
      (waiting : Handing (Option (ApplyResult P)))
      → Reached waiting
      → waiting.list ≡ s.w
      → (s' : EtcdServer P) × (end_request id start (context_done e) s
          ≡ sent (s', err (parse_propose_ctx_err s e start)))
        × (lookup id s'.w.m ≡ none)
        × ((other : ℕ) → id ≢ other → lookup other s'.w.m ≡ lookup other s.w.m)
  unfolding end_request
  end_request-context_done id start e s waiting reached same =
      let t = trigger-returns id none waiting reached in
      let gone : t.0.m ≡ delete id s.w.m = t.2 ∙ ap (λ w. delete id w.m) same in
      let returned : trigger id none s.w ≡ sent t.0 = ap (trigger id none) (sym same) ∙ t.1 in
      (
        record s { w = t.0 },
        rw (returned, end_request) refl,
        ap (lookup id) gone ∙ lookup-delete_same id s.w.m,
        λ other n. ap (lookup other) gone ∙ lookup-delete_other id other s.w.m n,
      )
