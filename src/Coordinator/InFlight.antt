-- ===== src/Coordinator/InFlight.antt =====
-- coordinator.py, one stream: the chunks that are under way, and how the queue can end.
use plug_and_play_local_rag.Base.{
  ◌≡◌, refl, sym, ap, ◌≤◌, List, [], ◌∷◌, ◌++◌, Bool, true, false, ◌&&◌, arith, length, is_empty,
}
use plug_and_play_local_rag.Coordinator.Streaming.{
  Item, chunk, failure, stream_done, Producer, generating, over, putting, failed, Consumer, reading,
  returned, raised, Stream,
}

module _ {A E : Type 0} where
  abbrev pub chunks : List (Item A E) → List A
  chunks [] = []
  chunks (chunk a ∷ items) = a ∷ chunks items
  chunks (failure e ∷ items) = chunks items
  chunks (stream_done ∷ items) = chunks items

  -- The item that the task is putting, or was when it was interrupted.
  abbrev pub held : Producer A E → List (Item A E)
  held generating = []
  held over = []
  held (putting item) = item ∷ []
  held (failed items) = items

  abbrev pub is_live : Producer A E → Bool
  is_live generating = true
  is_live (putting item) = true
  is_live over = false
  is_live (failed items) = false

  -- Whether an item can be in the queue when the task is where it is.
  abbrev pub fits : Producer A E → Item A E → Bool
  fits p (chunk a) = true
  fits over stream_done = true
  fits (failed items) (failure e) = true
  fits p item = false

  abbrev pub is_chunk : Item A E → Bool
  is_chunk (chunk a) = true
  is_chunk item = false

  abbrev pub is_last : Item A E → List (Item A E) → Bool
  is_last (chunk a) items = true
  is_last item items = is_empty items

  abbrev pub is_ordered : Producer A E → List (Item A E) → Bool
  is_ordered p [] = true
  is_ordered p (item ∷ items) = fits p item && is_last item items && is_ordered p items

  -- A consumer ends with nothing left in the queue, and as the task did.
  abbrev pub is_settled : Consumer E → Producer A E → List (Item A E) → Bool
  is_settled reading p items = true
  is_settled returned over items = is_empty items
  is_settled (raised e) (failed held_items) items = is_empty items
  is_settled c p items = false

  pub record IsDelivered (s : Stream A E) : Type 0 where
    pub conserved : s.yielded ++ (chunks s.queue ++ chunks (held s.producer)) ≡ s.sent
    pub bounded : length s.queue ≤ 64
    pub ordered : is_ordered s.producer s.queue ≡ true
    pub settled : is_settled s.consumer s.producer s.queue ≡ true

  chunks-append : (q r : List (Item A E)) → chunks (q ++ r) ≡ chunks q ++ chunks r
  chunks-append [] r = refl
  chunks-append (chunk a ∷ q) r = ap (λ l. a ∷ l) (chunks-append q r)
  chunks-append (failure e ∷ q) r = chunks-append q r
  chunks-append (stream_done ∷ q) r = chunks-append q r

  pub chunks-through :
      (q : List (Item A E)) (item : Item A E) (r : List (Item A E))
      → chunks (q ++ (item ∷ [])) ++ chunks r ≡ chunks q ++ chunks (item ∷ r)
  chunks-through [] item r = sym (chunks-append (item ∷ []) r)
  chunks-through (chunk a ∷ q) item r = ap (λ l. a ∷ l) (chunks-through q item r)
  chunks-through (failure e ∷ q) item r = chunks-through q item r
  chunks-through (stream_done ∷ q) item r = chunks-through q item r

  fits-live : (p : Producer A E) (item : Item A E) → is_live p ≡ true → fits p item ≡ is_chunk item
  fits-live generating (chunk a) live = refl
  fits-live generating (failure e) live = refl
  fits-live generating stream_done live = refl
  fits-live (putting i) (chunk a) live = refl
  fits-live (putting i) (failure e) live = refl
  fits-live (putting i) stream_done live = refl
  fits-live over item live = cc
  fits-live (failed items) item live = cc

  pub is_ordered-live :
      (p q : Producer A E) (items : List (Item A E))
      → is_live p ≡ true
      → is_ordered p items ≡ true
      → is_ordered q items ≡ true
  is_ordered-live p q [] live h = refl
  is_ordered-live p q (chunk a ∷ items) live h = is_ordered-live p q items live h
  is_ordered-live p q (failure e ∷ items) live h = ground (arith, fits-live p (failure e) live)
  is_ordered-live p q (stream_done ∷ items) live h = ground (arith, fits-live p stream_done live)

  pub is_ordered-append :
      (p q : Producer A E) (items : List (Item A E)) (item : Item A E)
      → is_live p ≡ true
      → fits q item ≡ true
      → is_ordered p items ≡ true
      → is_ordered q (items ++ (item ∷ [])) ≡ true
  is_ordered-append p q [] item live f h = ground arith
  is_ordered-append p q (chunk a ∷ items) item live f h = is_ordered-append p q items item live f h
  is_ordered-append p q (failure e ∷ items) item live f h =
      ground (arith, fits-live p (failure e) live)
  is_ordered-append p q (stream_done ∷ items) item live f h =
      ground (arith, fits-live p stream_done live)

  pub is_settled-live :
      (c : Consumer E) (p q : Producer A E) (items others : List (Item A E))
      → is_live p ≡ true
      → is_settled c p items ≡ true
      → is_settled c q others ≡ true
  is_settled-live reading p q items others live h = refl
  is_settled-live returned generating q items others live h = cc
  is_settled-live returned (putting i) q items others live h = cc
  is_settled-live returned over q items others live h = cc
  is_settled-live returned (failed is) q items others live h = cc
  is_settled-live (raised e) generating q items others live h = cc
  is_settled-live (raised e) (putting i) q items others live h = cc
  is_settled-live (raised e) over q items others live h = cc
  is_settled-live (raised e) (failed is) q items others live h = cc
