-- ===== src/Coordinator/Streaming.antt =====
-- coordinator.py, one stream: the loop of `_execute_stream` that puts, `_put_stream_failure`, and the
-- loop of `stream` that gets, over a queue of at most 64 items. A put into a full queue waits and is
-- tried again. That a consumer leaves early, and calls `cancel`, is not among the events.
use plug_and_play_local_rag.Base.{List, [], ◌∷◌, ◌++◌, Bool, if◌then◌else◌, length, leb}

pub data StreamError (E : Type 0) : Type 0 where
  cancelled_error invalid_result : StreamError E
  adapter_error : E → StreamError E

pub data Item (A E : Type 0) : Type 0 where
  chunk : A → Item A E
  failure : StreamError E → Item A E
  stream_done : Item A E

-- What the adapter's iteration gives next.
pub data Offer (A E : Type 0) : Type 0 where
  yields : A → Offer A E
  yields_other ends : Offer A E
  raises : E → Offer A E

-- The task of the request. `failed` holds the item, if any, whose put was interrupted.
pub data Producer (A E : Type 0) : Type 0 where
  generating over : Producer A E
  putting : Item A E → Producer A E
  failed : List (Item A E) → Producer A E

pub data Consumer (E : Type 0) : Type 0 where
  reading returned : Consumer E
  raised : StreamError E → Consumer E

-- `sent` are the chunks of the adapter that `put` was called with, `yielded` those the consumer has.
pub record Stream (A E : Type 0) : Type 0 where
  pub queue : List (Item A E)
  pub producer : Producer A E
  pub consumer : Consumer E
  pub sent : List A
  pub yielded : List A

pub data Event (A E : Type 0) : Type 0 where
  offers : Bool → Offer A E → Event A E
  retries interrupts gets : Event A E

module _ {A E : Type 0} where
  abbrev pub new_stream : Stream A E
  new_stream = record {
    queue = [];
    producer = generating;
    consumer = reading;
    sent = [];
    yielded = [];
  }

  abbrev pub is_full : Stream A E → Bool
  is_full s = leb 64 (length s.queue)

  abbrev pub after_put : Item A E → Producer A E
  after_put (chunk a) = generating
  after_put (failure e) = failed []
  after_put stream_done = over

  -- await queue.put(item)
  abbrev pub put : Item A E → Stream A E → Stream A E
  put item s =
      if is_full s
      then record s { producer = putting item }
      else record s { queue = s.queue ++ (item ∷ []); producer = after_put item }

  -- The failure is dropped if the queue is full.
  abbrev pub put_stream_failure : List (Item A E) → StreamError E → Stream A E → Stream A E
  put_stream_failure held e s = record s {
    queue = if is_full s then s.queue else s.queue ++ (failure e ∷ []);
    producer = failed held;
  }

  abbrev pub send : A → Stream A E → Stream A E
  send a s = put (chunk a) (record s { sent = s.sent ++ (a ∷ []) })

  -- The Boolean is whether the event of the request's cancellation is set.
  abbrev pub offered : Bool → Offer A E → Stream A E → Stream A E
  offered cancelled (yields a) s =
      if cancelled then put_stream_failure [] cancelled_error s else send a s
  offered cancelled yields_other s =
      put_stream_failure [] (if cancelled then cancelled_error else invalid_result) s
  offered cancelled ends s = put stream_done s
  offered cancelled (raises e) s = put_stream_failure [] (adapter_error e) s

  abbrev pub produce : Producer A E → Event A E → Stream A E → Stream A E
  produce generating (offers cancelled offer) s = offered cancelled offer s
  produce generating interrupts s = put_stream_failure [] cancelled_error s
  produce (putting item) retries s = put item s
  produce (putting item) interrupts s = put_stream_failure (item ∷ []) cancelled_error s
  produce p event s = s

  abbrev pub consume : Item A E → Stream A E → Stream A E
  consume (chunk a) s = record s { yielded = s.yielded ++ (a ∷ []) }
  consume (failure e) s = record s { consumer = raised e }
  consume stream_done s = record s { consumer = returned }

  abbrev pub get_item : List (Item A E) → Consumer E → Stream A E → Stream A E
  get_item (item ∷ queue) reading s = consume item (record s { queue = queue })
  get_item queue consumer s = s

  abbrev pub step : Event A E → Stream A E → Stream A E
  step gets s = get_item s.queue s.consumer s
  step event s = produce s.producer event s

  unfoldable pub run : List (Event A E) → Stream A E → Stream A E
  run [] s = s
  run (event ∷ events) s = run events (step event s)
