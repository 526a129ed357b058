-- ===== src/Coordinator/Putting.antt =====
-- coordinator.py, one stream: what the task of the request does loses no chunk.
use plug_and_play_local_rag.Base.{
  ◌≡◌, refl, sym, ap, ◌∙◌, List, [], ◌∷◌, ◌++◌, Bool, true, false, arith, if◌then◌else◌,
  length-append,
}
use plug_and_play_local_rag.Coordinator.Streaming.{
  StreamError, cancelled_error, invalid_result, adapter_error, Item, chunk, failure, stream_done,
  Offer, yields, yields_other, ends, raises, Producer, generating, putting, failed, Stream, Event,
  offers, retries, interrupts, is_full, after_put, put, put_stream_failure, send, offered, produce,
}
use mathlib.Core.List.{append-nil, append_assoc}
use plug_and_play_local_rag.Coordinator.InFlight.{
  chunks, held, is_live, fits, IsDelivered, chunks-through, is_ordered-live, is_ordered-append,
  is_settled-live,
}

module _ {A E : Type 0} where
  -- What a live task adds to the queue, as it goes on to `q`.
  append-IsDelivered :
      (s : Stream A E) (q : Producer A E) (item : Item A E)
      → is_full s ≡ false
      → is_live s.producer ≡ true
      → fits q item ≡ true
      → chunks (item ∷ held q) ≡ chunks (held s.producer)
      → IsDelivered s
      → IsDelivered (record s { queue = s.queue ++ (item ∷ []); producer = q })
  append-IsDelivered s q item room live f same v = record {
    conserved =
        ap (λ l. s.yielded ++ l)
          (chunks-through s.queue item (held q) ∙ ap (λ l. chunks s.queue ++ l) same)
        ∙ v.conserved;
    bounded = ground (arith, length-append s.queue (item ∷ []));
    ordered = is_ordered-append s.producer q s.queue item live f v.ordered;
    settled = is_settled-live s.consumer s.producer q s.queue _ live v.settled;
  }

  -- The task goes on without adding to the queue.
  keep-IsDelivered :
      (s : Stream A E) (q : Producer A E)
      → is_live s.producer ≡ true
      → chunks (held q) ≡ chunks (held s.producer)
      → IsDelivered s
      → IsDelivered (record s { producer = q })
  keep-IsDelivered s q live same v = record {
    conserved = ap (λ l. s.yielded ++ (chunks s.queue ++ l)) same ∙ v.conserved;
    bounded = v.bounded;
    ordered = is_ordered-live s.producer q s.queue live v.ordered;
    settled = is_settled-live s.consumer s.producer q s.queue s.queue live v.settled;
  }

  fits-after_put : (item : Item A E) → fits (after_put item) item ≡ true
  fits-after_put (chunk a) = refl
  fits-after_put (failure e) = refl
  fits-after_put stream_done = refl

  chunks-after_put : (item : Item A E) → chunks (item ∷ held (after_put item)) ≡ chunks (item ∷ [])
  chunks-after_put (chunk a) = refl
  chunks-after_put (failure e) = refl
  chunks-after_put stream_done = refl

  put-IsDelivered :
      (item : Item A E) (s : Stream A E)
      → is_live s.producer ≡ true
      → chunks (item ∷ []) ≡ chunks (held s.producer)
      → IsDelivered s
      → IsDelivered (put item s)
  put-IsDelivered item s live same v = at (is_full s) refl
    where
      at :
          (b : Bool)
          → is_full s ≡ b
          → IsDelivered (
              if b
              then record s { producer = putting item }
              else record s { queue = s.queue ++ (item ∷ []); producer = after_put item })
      at true e = keep-IsDelivered s (putting item) live same v
      at false e =
          append-IsDelivered s (after_put item) item e live (fits-after_put item)
            (chunks-after_put item ∙ same) v

  put_stream_failure-IsDelivered :
      (items : List (Item A E)) (e : StreamError E) (s : Stream A E)
      → is_live s.producer ≡ true
      → chunks items ≡ chunks (held s.producer)
      → IsDelivered s
      → IsDelivered (put_stream_failure items e s)
  put_stream_failure-IsDelivered items e s live same v = at (is_full s) refl
    where
      at :
          (b : Bool)
          → is_full s ≡ b
          → IsDelivered (record s {
            queue = if b then s.queue else s.queue ++ (failure e ∷ []);
            producer = failed items;
          })
      at true full = keep-IsDelivered s (failed items) live same v
      at false room = append-IsDelivered s (failed items) (failure e) room live refl same v

  send-IsDelivered :
      (a : A) (s : Stream A E) → s.producer ≡ generating → IsDelivered s → IsDelivered (send a s)
  send-IsDelivered a s live v =
      put-IsDelivered (chunk a)
        (record s { sent = s.sent ++ (a ∷ []); producer = putting (chunk a) }) refl refl
        (record {
          conserved =
              sym (append_assoc s.yielded (chunks s.queue) (a ∷ []))
              ∙ ap (λ l. l ++ (a ∷ [])) all_sent;
          bounded = v.bounded;
          ordered =
              is_ordered-live s.producer (putting (chunk a)) s.queue (ap is_live live) v.ordered;
          settled =
              is_settled-live s.consumer s.producer (putting (chunk a)) s.queue s.queue
                (ap is_live live) v.settled;
        })
    where
      all_sent : s.yielded ++ chunks s.queue ≡ s.sent
      all_sent =
          ap (λ l. s.yielded ++ l)
            (sym (append-nil (chunks s.queue))
              ∙ ap (λ p. chunks s.queue ++ chunks (held p)) (sym live))
          ∙ v.conserved

  offered-IsDelivered :
      (cancelled : Bool) (offer : Offer A E) (s : Stream A E)
      → s.producer ≡ generating
      → IsDelivered s
      → IsDelivered (offered cancelled offer s)
  offered-IsDelivered true (yields a) s live v =
      put_stream_failure-IsDelivered [] cancelled_error s (ap is_live live)
        (ap (λ p. chunks (held p)) (sym live)) v
  offered-IsDelivered false (yields a) s live v = send-IsDelivered a s live v
  offered-IsDelivered c yields_other s live v =
      put_stream_failure-IsDelivered [] (if c then cancelled_error else invalid_result) s
        (ap is_live live) (ap (λ p. chunks (held p)) (sym live)) v
  offered-IsDelivered c ends s live v =
      put-IsDelivered stream_done s (ap is_live live) (ap (λ p. chunks (held p)) (sym live)) v
  offered-IsDelivered c (raises e) s live v =
      put_stream_failure-IsDelivered [] (adapter_error e) s (ap is_live live)
        (ap (λ p. chunks (held p)) (sym live)) v

  pub produce-IsDelivered :
      (p : Producer A E) (event : Event A E) (s : Stream A E)
      → s.producer ≡ p
      → IsDelivered s
      → IsDelivered (produce p event s)
  produce-IsDelivered generating (offers c offer) s at_p v = offered-IsDelivered c offer s at_p v
  produce-IsDelivered generating interrupts s at_p v =
      put_stream_failure-IsDelivered [] cancelled_error s (ap is_live at_p)
        (ap (λ p. chunks (held p)) (sym at_p)) v
  produce-IsDelivered (putting item) retries s at_p v =
      put-IsDelivered item s (ap is_live at_p) (ap (λ p. chunks (held p)) (sym at_p)) v
  produce-IsDelivered (putting item) interrupts s at_p v =
      put_stream_failure-IsDelivered (item ∷ []) cancelled_error s (ap is_live at_p)
        (ap (λ p. chunks (held p)) (sym at_p)) v
  produce-IsDelivered p event s at_p v = v
