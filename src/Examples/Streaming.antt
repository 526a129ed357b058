-- ===== src/Examples/Streaming.antt =====
-- Streams of the coordinator.
use plug_and_play_local_rag.Base.{◌≡◌, refl, ℕ, zero, suc, List, [], ◌∷◌, ◌++◌, false, true, String}
use plug_and_play_local_rag.Coordinator.Streaming.{
  over, reading, raised, cancelled_error, Event, offers, gets, yields, ends, raises, new_stream,
  run,
}
use plug_and_play_local_rag.Coordinator.Delivery.{stream_complete}

abbrev two_chunks : List (Event String String)
two_chunks =
    offers false (yields "a")
    ∷ gets
    ∷ gets
    ∷ offers false (yields "b")
    ∷ offers false ends
    ∷ gets
    ∷ gets
    ∷ []

stream_complete_example :
    ((run two_chunks new_stream).producer ≡ over)
    × ((run two_chunks new_stream).yielded ≡ (run two_chunks new_stream).sent)
unfolding run
stream_complete_example = stream_complete two_chunks refl

both : (run two_chunks new_stream).yielded ≡ "a" ∷ "b" ∷ []
unfolding run
both = refl

-- A cancelled request: the consumer gets what was in the queue, then the failure.
cut_short :
    (run
      (offers false (yields "a") ∷ offers true (yields "b") ∷ gets ∷ gets ∷ [])
      (new_stream {A = String} {E = String})).consumer
    ≡ raised cancelled_error
unfolding run
cut_short = refl

abbrev times : ℕ → Event String String → List (Event String String)
times zero event = []
times (suc n) event = event ∷ times n event

-- 64 chunks fill the queue and the failure that follows is dropped: the consumer reads on for ever.
abbrev dropped : List (Event String String)
dropped = times 64 (offers false (yields "a")) ++ (offers false (raises "lost") ∷ times 70 gets)

still_reading : (run dropped new_stream).consumer ≡ reading
unfolding run
still_reading = refl

nothing_queued : (run dropped new_stream).queue ≡ []
unfolding run
nothing_queued = refl
