-- ===== src/Connection/Requests/Answers.antt =====
-- Every request is answered or dropped, once (src/peer_connection/).
use bep_rs.Prelude.{
  ℕ, ◌≡◌, ◌∙◌, Bool, true, Option, none, some, List, [], ◌∷◌, ◌++◌, map, append_assoc, append-nil,
  All,
}
use bep_rs.Connection.Requests.{
  PeerRequestListener, PeerRequestResponse, Pending, channels, drain, drain_requests,
}

-- The channels of the messages that are queued.
abbrev pub queued : List (List ℕ × Option ℕ) → List ℕ
queued [] = []
queued ((msg, none) ∷ queue) = queued queue
queued ((msg, some channel) ∷ queue) = channel ∷ queued queue

-- Every channel that was handed over, wherever it now is.
abbrev pub all_channels : Pending → List ℕ
all_channels s = channels s.requests ++ queued s.queue ++ map (λ a. a.0) s.answered ++ s.cancelled

-- Drain: each listener is answered `closed`, in order, and none is left.
drain_lem :
    (is_waited_for : ℕ → Bool) (requests : List PeerRequestListener) (s : Pending)
    → All (λ (l : PeerRequestListener). is_waited_for l.channel ≡ true) requests
    → drain is_waited_for requests s
      ≡ some (record s {
        answered =
            s.answered
            ++ map (λ (l : PeerRequestListener). (l.channel, PeerRequestResponse.closed)) requests;
      })
unfolding drain
drain_lem w [] s h = rw append-nil
drain_lem w (l ∷ requests) s h = rw (h.0) (
    drain_lem w requests
      (record s { answered = s.answered ++ (l.channel, PeerRequestResponse.closed) ∷ [] }) h.1
    ∙ rw append_assoc)

-- Where somebody still waits for the channel of every request, `drain_requests` does not panic: it
-- answers each request with `closed`, in their order, leaves no request, and changes nothing else.
pub drain_requests_lem :
    (is_waited_for : ℕ → Bool) (s : Pending)
    → All (λ (l : PeerRequestListener). is_waited_for l.channel ≡ true) s.requests
    → drain_requests is_waited_for s
      ≡ some (record s {
        requests = [];
        answered =
            s.answered
            ++ map
                (λ (l : PeerRequestListener). (l.channel, PeerRequestResponse.closed))
                s.requests;
      })
unfolding drain_requests
drain_requests_lem w s h = drain_lem w s.requests (record s { requests = [] }) h
