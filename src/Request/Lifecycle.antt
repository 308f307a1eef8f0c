-- ===== src/Request/Lifecycle.antt =====
-- The states of a request, and the count of the active requests of its connection.
use tfcgi.Prelude.{
  ℕ, ◌≡◌, refl, ◌∙◌, Bool, true, false, List, [], ◌∷◌, ◌++◌, Option, none, some, ◌==◌,
  if◌then◌else◌, Result, ok, arith, Ensures, Ensures_bind_all, Ensures_elim, replicate,
}
use mathlib.Core.Path.{subst}
use tfcgi.Protocol
use tfcgi.Protocol.{Header}
use tfcgi.Packet.{packet_recv_all, sink_to_vector}
use tfcgi.Nvp.Deserializer.{
  Deserializer, Parsed, looping, returned, raised, failed, out_of_fuel, feed_bytes,
}
use tfcgi.Nvp.Maps.{Map, to_map_new_key}
use tfcgi.Request.{
  State, ready, reading_params, pending, app_running, Request, Shared, increment, decrement, cancel,
  accept, open_inputs, after_feed, handle_params, handle_begin, handle_stdin, handle_data,
  handle_packet, push_request,
}

-- A deserializer is there just while the parameters are read.
abbrev pub Consistent : State → Option Deserializer → Type 0
Consistent reading_params (some d) = Unit {0}
Consistent reading_params none = ⊥
Consistent ready none = Unit {0}
Consistent ready (some d) = ⊥
Consistent pending none = Unit {0}
Consistent pending (some d) = ⊥
Consistent app_running o = ⊥

abbrev pub IsConsistent : Request → Type 0
IsConsistent r = Consistent r.state r.params_deserializer

-- A request counts as active from BEGIN_REQUEST on, and its state says so.
abbrev pub weight : State → ℕ
weight ready = 0
weight _ = 1

-- What a packet can do to a request: nothing to its state; take it up; hand it to the workers; or
-- give it up. The count of the connection and the queue follow.
pub data Step (r r' : Request) (sh sh' : Shared) : Type 0 where
  stays :
      r'.state ≡ r.state
      → sh'.request_actives ≡ sh.request_actives
      → sh'.queue ≡ sh.queue
      → Step r r' sh sh'
  begins :
      r.state ≡ ready
      → r'.state ≡ reading_params
      → sh'.request_actives ≡ increment sh.request_actives
      → sh'.queue ≡ sh.queue
      → Step r r' sh sh'
  hands_over :
      r.state ≡ reading_params
      → r'.state ≡ pending
      → sh'.request_actives ≡ sh.request_actives
      → sh'.queue ≡ sh.queue ++ (r.request_id ∷ [])
      → Step r r' sh sh'
  cancels :
      r.state ≡ reading_params
      → r'.state ≡ ready
      → sh'.request_actives ≡ decrement sh.request_actives
      → sh'.queue ≡ sh.queue
      → Step r r' sh sh'

pub Step-pending :
    {r r' : Request} {sh sh' : Shared}
    → r.state ≡ pending
    → Step r r' sh sh'
    → (r'.state ≡ pending) × (sh'.request_actives ≡ sh.request_actives) × (sh'.queue ≡ sh.queue)
Step-pending p (stays es ea eq) = (es ∙ p, ea, eq)
Step-pending p (begins e e' ea eq) = cc
Step-pending p (hands_over e e' ea eq) = cc
Step-pending p (cancels e e' ea eq) = cc

abbrev pub Handled : Request → Shared → Result (Header × Request × Shared) → Type 0
Handled r sh m =
    Ensures m (λ (h', r', sh'). IsConsistent r' × Step r r' sh sh' × (r'.request_id ≡ r.request_id))

pub open_inputs-request_id :
    (role : ℕ) (r : Request) → (open_inputs role r).request_id ≡ r.request_id
unfolding open_inputs
open_inputs-request_id role r = ground arith

module _ (limit : ℕ) (name_memory value_memory : List ℕ) (message : Deserializer → List ℕ) where
  after_feed-Handled :
      (h : Header) (r : Request) (sh sh0 : Shared) (p : Parsed Map)
      → r.state ≡ reading_params
      → sh.request_actives ≡ sh0.request_actives
      → sh.queue ≡ sh0.queue
      → Handled r sh0 (after_feed limit name_memory value_memory message h r sh p)
  unfolding cancel push_request
  after_feed-Handled h r sh sh0 (looping d datas m) e ea eq = tt
  after_feed-Handled h r sh sh0 (returned false d m) e ea eq = (rw e tt, stays refl ea eq, refl)
  after_feed-Handled h r sh sh0 (returned true d m) e ea eq =
      (tt, hands_over e refl ea (ground arith), refl)
  after_feed-Handled h r sh sh0 (raised d m) e ea eq = (tt, cancels e refl (ground arith) eq, refl)
  after_feed-Handled h r sh sh0 (failed x) e ea eq = tt
  after_feed-Handled h r sh sh0 out_of_fuel e ea eq = tt

  reading_of_some : (st : State) (d : Deserializer) → Consistent st (some d) → st ≡ reading_params
  reading_of_some reading_params d h = refl
  reading_of_some ready d h = absurd h
  reading_of_some pending d h = absurd h
  reading_of_some app_running d h = absurd h

  handle_params-Handled :
      (o : Option Deserializer) (h : Header) (r : Request) (sh : Shared)
      → r.params_deserializer ≡ o
      → IsConsistent r
      → Handled r sh (handle_params limit name_memory value_memory message o h r sh)
  unfolding handle_params
  handle_params-Handled none h r sh e c = (c, stays refl refl refl, refl)
  handle_params-Handled (some d) h r sh e c =
      let reading = reading_of_some r.state d (subst (Consistent r.state) e c) in
      Ensures_bind_all _ (sink_to_vector h sh.socket) _ (λ (content, h', socket).
        after_feed-Handled h' r (record sh { socket = socket }) sh
          (feed_bytes to_map_new_key limit d content r.params) reading refl refl)

  keeps : (h : Header) (r : Request) (sh : Shared) → IsConsistent r → Handled r sh (ok (h, r, sh))
  keeps h r sh c = (c, stays refl refl refl, refl)

  handle_begin-Handled :
      (st : State) (h : Header) (r : Request) (sh : Shared)
      → r.state ≡ st
      → IsConsistent r
      → Handled r sh (handle_begin limit name_memory value_memory message st h r sh)
  unfolding handle_begin accept
  handle_begin-Handled ready h r sh e c =
      Ensures_bind_all _ (packet_recv_all (replicate 8 0) h sh.socket) _
        (λ (body, h', socket). (tt, begins e refl refl refl, open_inputs-request_id _ _))
  handle_begin-Handled reading_params h r sh e c = keeps h r sh c
  handle_begin-Handled pending h r sh e c = keeps h r sh c
  handle_begin-Handled app_running h r sh e c = keeps h r sh c

  handle_stdin-Handled :
      (st : State) (h : Header) (r : Request) (sh : Shared)
      → IsConsistent r
      → Handled r sh (handle_stdin limit name_memory value_memory message st h r sh)
  unfolding handle_stdin
  handle_stdin-Handled ready h r sh c = keeps h r sh c
  handle_stdin-Handled _ h r sh c =
      Ensures_bind_all _ (sink_to_vector h sh.socket) _
        (λ (content, h', socket). (c, stays refl refl refl, refl))

  handle_data-Handled :
      (st : State) (h : Header) (r : Request) (sh : Shared)
      → IsConsistent r
      → Handled r sh (handle_data limit name_memory value_memory message st h r sh)
  unfolding handle_data
  handle_data-Handled ready h r sh c = keeps h r sh c
  handle_data-Handled _ h r sh c =
      Ensures_bind_all _ (sink_to_vector h sh.socket) _
        (λ (content, h', socket). (c, stays refl refl refl, refl))

  if_ind : {A : Type 0} (P : A → Type 0) (b : Bool) {x y : A} → P x → P y → P (if b then x else y)
  if_ind P true px py = px
  if_ind P false px py = py

  pub handle_packet-Handled :
      (h : Header) (r : Request) (sh : Shared)
      → IsConsistent r
      → Handled r sh (handle_packet limit name_memory value_memory message h r sh)
  unfolding handle_packet
  handle_packet-Handled h r sh c =
      let P = Handled r sh in
      if_ind P (h.type == Protocol.begin_request) (handle_begin-Handled r.state h r sh refl c) (
        if_ind P (h.type == Protocol.abort_request) (keeps h r sh c) (
          if_ind P (h.type == Protocol.params)
            (handle_params-Handled r.params_deserializer h r sh refl c)
            (if_ind P (h.type == Protocol.stdin) (handle_stdin-Handled r.state h r sh c) (
              if_ind P (h.type == Protocol.data_stream) (handle_data-Handled r.state h r sh c) (
                if_ind P (h.type == Protocol.get_values) (keeps h r sh c)
                  (c, stays refl refl refl, refl))))))

  -- Every packet that a request handles takes it through one of the steps of its life, with the
  -- count of active requests and the queue of the workers following; the deserializer is there
  -- just while the parameters are read, and the request id never changes.
  pub handle_packet-Step :
      (h h' : Header) (r r' : Request) (sh sh' : Shared)
      → IsConsistent r
      → handle_packet limit name_memory value_memory message h r sh ≡ ok (h', r', sh')
      → IsConsistent r' × Step r r' sh sh' × (r'.request_id ≡ r.request_id)
  handle_packet-Step h h' r r' sh sh' c e =
      Ensures_elim
        (λ (h2, r2, sh2). IsConsistent r2 × Step r r2 sh sh2 × (r2.request_id ≡ r.request_id)) e
        (handle_packet-Handled h r sh c)
