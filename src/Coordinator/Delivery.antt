-- ===== src/Coordinator/Delivery.antt =====
-- coordinator.py, one stream: what a consumer has of what the adapter made, however puts and gets
-- follow each other.
use plug_and_play_local_rag.Base.{◌≡◌, refl, sym, ap, ◌∙◌, subst, List, [], ◌∷◌, ◌++◌, true, arith}
use plug_and_play_local_rag.Coordinator.Streaming.{
  StreamError, Item, chunk, failure, stream_done, Producer, generating, over, putting, failed,
  Consumer, reading, returned, raised, Stream, Event, offers, retries, interrupts, gets, new_stream,
  get_item, step, run,
}
use mathlib.Core.List.{append-nil, append_assoc}
use plug_and_play_local_rag.Coordinator.InFlight.{chunks, held, is_ordered, is_settled, IsDelivered}
use plug_and_play_local_rag.Coordinator.Putting.{produce-IsDelivered}

module _ {A E : Type 0} where
  fits-failure :
      (p : Producer A E) (e : StreamError E) (items : List (Item A E))
      → is_ordered p (failure e ∷ items) ≡ true
      → is_settled (raised e) p items ≡ true
  fits-failure (failed is) e items h = ground arith
  fits-failure generating e items h = cc
  fits-failure (putting i) e items h = cc
  fits-failure over e items h = cc

  fits-stream_done :
      (p : Producer A E) (items : List (Item A E))
      → is_ordered p (stream_done ∷ items) ≡ true
      → is_settled returned p items ≡ true
  fits-stream_done over items h = ground arith
  fits-stream_done generating items h = cc
  fits-stream_done (putting i) items h = cc
  fits-stream_done (failed is) items h = cc

  is_ordered-tail :
      (p : Producer A E) (item : Item A E) (items : List (Item A E))
      → is_ordered p (item ∷ items) ≡ true
      → is_ordered p items ≡ true
  is_ordered-tail p item items h = ground arith

  get_item-IsDelivered :
      (q : List (Item A E)) (c : Consumer E) (s : Stream A E)
      → IsDelivered (record s { queue = q; consumer = c })
      → IsDelivered (get_item q c (record s { queue = q; consumer = c }))
  get_item-IsDelivered (chunk a ∷ q) reading s v = record {
    conserved =
        append_assoc s.yielded (a ∷ []) (chunks q ++ chunks (held s.producer)) ∙ v.conserved;
    bounded = omega (arith, v.bounded);
    ordered = is_ordered-tail s.producer (chunk a) q v.ordered;
    settled = refl;
  }
  get_item-IsDelivered (failure e ∷ q) reading s v = record {
    conserved = v.conserved;
    bounded = omega (arith, v.bounded);
    ordered = is_ordered-tail s.producer (failure e) q v.ordered;
    settled = fits-failure s.producer e q v.ordered;
  }
  get_item-IsDelivered (stream_done ∷ q) reading s v = record {
    conserved = v.conserved;
    bounded = omega (arith, v.bounded);
    ordered = is_ordered-tail s.producer stream_done q v.ordered;
    settled = fits-stream_done s.producer q v.ordered;
  }
  get_item-IsDelivered q c s v = v

  step-IsDelivered :
      (event : Event A E) (s : Stream A E) → IsDelivered s → IsDelivered (step event s)
  step-IsDelivered gets s v = get_item-IsDelivered s.queue s.consumer s v
  step-IsDelivered retries s v = produce-IsDelivered s.producer retries s refl v
  step-IsDelivered interrupts s v = produce-IsDelivered s.producer interrupts s refl v
  step-IsDelivered (offers c offer) s v = produce-IsDelivered s.producer (offers c offer) s refl v

  pub run-IsDelivered :
      (events : List (Event A E)) (s : Stream A E) → IsDelivered s → IsDelivered (run events s)
  unfolding run
  run-IsDelivered [] s v = v
  run-IsDelivered (event ∷ events) s v =
      run-IsDelivered events (step event s) (step-IsDelivered event s v)

  new_stream-IsDelivered : IsDelivered {A = A} {E = E} new_stream
  new_stream-IsDelivered = record {
    conserved = refl;
    bounded = omega arith;
    ordered = refl;
    settled = refl;
  }

  settled-returned :
      (p : Producer A E) (items : List (Item A E))
      → is_settled returned p items ≡ true
      → (p ≡ over) × (items ≡ [])
  settled-returned over [] h = (refl, refl)
  settled-returned over (item ∷ items) h = cc
  settled-returned generating items h = cc
  settled-returned (putting i) items h = cc
  settled-returned (failed is) items h = cc

  returned_complete :
      (s : Stream A E)
      → IsDelivered s
      → s.consumer ≡ returned
      → (s.producer ≡ over) × (s.yielded ≡ s.sent)
  returned_complete s v h = (
    ended.0,
    sym (append-nil s.yielded) ∙ ap (λ l. s.yielded ++ l) (sym nothing_left) ∙ v.conserved,
  )
    where
      ended : (s.producer ≡ over) × (s.queue ≡ [])
      ended =
          settled-returned s.producer s.queue
            (subst (λ c. is_settled c s.producer s.queue ≡ true) h v.settled)

      nothing_left : chunks s.queue ++ chunks (held s.producer) ≡ []
      nothing_left =
          ap (λ q. chunks q ++ chunks (held s.producer)) ended.1 ∙ ap (λ p. chunks (held p)) ended.0

  -- However puts, gets and interruptions follow each other: if the consumer of a stream has returned,
  -- the task has put the end of the adapter's iteration, and the consumer has every chunk that the
  -- task put, or was putting, in their order.
  pub stream_complete :
      (events : List (Event A E))
      → (run events new_stream).consumer ≡ returned
      → ((run events new_stream).producer ≡ over)
        × ((run events new_stream).yielded ≡ (run events new_stream).sent)
  stream_complete events h =
      returned_complete _ (run-IsDelivered events new_stream new_stream-IsDelivered) h
