-- ===== src/Connection/Requests/Conservation.antt =====
-- No request is lost, and none is answered twice (src/peer_connection/).
use bep_rs.Prelude.{
  ℕ, ◌+◌, ◌≡◌, refl, ◌∙◌, Bool, false, Option, none, some, List, [], ◌∷◌, ◌++◌, arith,
}
use bep_rs.Prelude.Outcome.{ok}
use bep_rs.Connection.Items.{Response}
use bep_rs.Connection.Requests.{
  PeerRequestListener, PeerRequestResponse, Pending, answer, report_sent, drop_sender, close_queue,
  close_receiver,
}
use bep_rs.Connection.Requests.Answers.{queued}
use bep_rs.Connection.Requests.Places.{count, told-append, places, one}

pub answer_lem :
    (w : ℕ → Bool) (r : Response) (l : PeerRequestListener) (s s' : Pending)
    → answer w r l s ≡ ok s'
    → s' ≡ record s { answered = s.answered ++ (l.channel, PeerRequestResponse.response r) ∷ [] }
unfolding answer
answer_lem w r l s s' h = ground arith

pub told-places :
    (c k : ℕ) (a : PeerRequestResponse) (s : Pending)
    → places c (record s { answered = s.answered ++ (k, a) ∷ [] }) ≡ places c s + one k c
unfolding places
told-places c k a s = ground (arith, told-append s.answered ((k, a) ∷ []) c)

abbrev pub extra : ℕ → Option ℕ → ℕ
extra c none = 0
extra c (some k) = one k c

-- The requests stay, and the channel of the message is in one more place.
abbrev pub Adds : ℕ → ℕ → Pending → Pending → Type 0
Adds c n s s' = (s'.requests ≡ s.requests) × (places c s' ≡ places c s + n)

pub report_sent-Adds :
    (c : ℕ) (first_part : Option ℕ) (s : Pending)
    → Adds c (extra c first_part) s (report_sent first_part s)
unfolding report_sent
report_sent-Adds c none s = (refl, omega arith)
report_sent-Adds c (some k) s = (refl, told-places c k PeerRequestResponse.sent s)

pub unqueue-places :
    (c : ℕ) (msg : List ℕ) (first_part : Option ℕ) (queue : List (List ℕ × Option ℕ)) (s : Pending)
    → s.queue ≡ (msg, first_part) ∷ queue
    → places c (record s { queue = queue }) + extra c first_part ≡ places c s
unfolding places
unqueue-places c msg none queue s e = rw e (omega arith)
unqueue-places c msg (some k) queue s e = rw e (ground arith)

pub count-drop_sender :
    (c : ℕ) (first_part : Option ℕ) → count c (drop_sender first_part) ≡ extra c first_part
count-drop_sender c none = refl
count-drop_sender c (some k) = ground arith

close_queue-places :
    (c : ℕ) (queue : List (List ℕ × Option ℕ)) (s : Pending)
    → ((close_queue queue s).requests ≡ s.requests)
      × (places c (close_queue queue s) ≡ places c s + count c (queued queue))
unfolding close_queue
close_queue-places c [] s = (refl, omega arith)
close_queue-places c ((msg, none) ∷ queue) s = close_queue-places c queue s
close_queue-places c ((msg, some k) ∷ queue) s =
    let next : Pending = record s {
      answered = s.answered ++ (k, PeerRequestResponse.closed) ∷ [];
    } in
    let (same, ih) = close_queue-places c queue next in
    (same, ground (arith, ih, told-places c k PeerRequestResponse.closed s))

-- Closing the queue tells everyone whose message is still queued.
pub close_receiver-places :
    (c : ℕ) (s : Pending)
    → ((close_receiver s).requests ≡ s.requests) × (places c (close_receiver s) ≡ places c s)
unfolding close_receiver
close_receiver-places c s =
    let (same, moved) = close_queue-places c s.queue (record s { queue = []; is_open = false }) in
    (same, moved ∙ unfold places in omega arith)
