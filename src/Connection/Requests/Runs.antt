-- ===== src/Connection/Requests/Runs.antt =====
-- The requests of a connection over its whole life, as a relation of steps in any order: the tasks of the
-- connection and the callers interleave at every lock and every wait (src/peer_connection/).
use bep_rs.Prelude.{
  ℕ, ◌+◌, ◌≡◌, refl, subst, true, false, not, Option, none, some, List, [], ◌∷◌, ◌++◌, keep, find?,
  arith, Option-cases, inl, inr,
}
use mathlib.Core.Option.{some-injective}
use bep_rs.Prelude.Int.{ℤ}
use bep_rs.Connection.Requests.{
  PeerRequestListener, PeerRequestResponse, PeerRequestResponseType, Pending, has_id, channels,
  register, insert_request, send_message, remove_request, drop_sender,
}
use bep_rs.Connection.Requests.Answers.{queued}
use bep_rs.Connection.Requests.Places.{
  count, count-append, places, one, HasUniqueIds, HasUniqueIds-keep, keep-found, channels-keep,
  send_message-places, send_message-requests, insert_request-places, insert_request-HasUniqueIds,
}
use bep_rs.Connection.Requests.Conservation.{extra, told-places, unqueue-places, count-drop_sender}
use bep_rs.Connection.Writing.{drop_receiver}

abbrev pub initial : Pending
initial = record { requests = []; queue = []; is_open = true; answered = []; cancelled = [] }

-- The shared parts, and the senders that the tasks hold for themselves: of a message that is not in the
-- queue yet or was taken from it, and of a listener that was taken from the table.
pub record Tasks : Type 0 where
  pub pending : Pending
  pub held : List ℕ

-- The answer goes through the sender.
abbrev pub tell : ℕ → PeerRequestResponse → Pending → Pending
tell k r s = record s { answered = s.answered ++ (k, r) ∷ [] }

-- A state that can be reached, and the channels that callers have made so far.
pub data Run : List ℕ → Tasks → Type 0 where
  start : Run [] (record { pending = initial; held = [] })
  -- A caller makes a channel, and inserts the listener if there is one.
  registers :
      {hs : List ℕ} {t : Tasks} {s : Pending} (id : ℤ) (response_type : PeerRequestResponseType)
      (k : ℕ) (first_part : Option ℕ)
      → Run hs t
      → register id response_type k t.pending ≡ some (first_part, s)
      → Run (k ∷ hs) (record { pending = s; held = drop_sender first_part ++ t.held })
  -- A message goes into the queue, with a sender that its task holds or with none.
  sends :
      {hs : List ℕ} {t : Tasks} (msg : List ℕ) (first_part : Option ℕ) (before later : List ℕ)
      → Run hs t
      → t.held ≡ before ++ (drop_sender first_part ++ later)
      → Run hs (record { pending = send_message msg first_part t.pending; held = before ++ later })
  -- The writer takes the first message, to write it or to drop it.
  takes :
      {hs : List ℕ} {t : Tasks} (msg : List ℕ) (first_part : Option ℕ)
      (queue : List (List ℕ × Option ℕ))
      → Run hs t
      → t.pending.queue ≡ (msg, first_part) ∷ queue
      → Run hs (record {
        pending = record (t.pending) { queue = queue };
        held = drop_sender first_part ++ t.held;
      })
  -- A task uses a sender that it holds: that the message was sent, a response, or the end.
  tells :
      {hs : List ℕ} {t : Tasks} (k : ℕ) (r : PeerRequestResponse) (before later : List ℕ)
      → Run hs t
      → t.held ≡ before ++ k ∷ later
      → Run hs (record { pending = tell k r t.pending; held = before ++ later })
  -- A task that fails, panics or is dropped drops a sender that it holds.
  drops :
      {hs : List ℕ} {t : Tasks} (k : ℕ) (before later : List ℕ)
      → Run hs t
      → t.held ≡ before ++ k ∷ later
      → Run hs (record {
        pending = record (t.pending) { cancelled = t.pending.cancelled ++ k ∷ [] };
        held = before ++ later;
      })
  -- A response takes the listener of its request from the table.
  removes :
      {hs : List ℕ} {t : Tasks} {s : Pending} (id : ℤ) (l : PeerRequestListener)
      → Run hs t
      → remove_request id t.pending ≡ some (l, s)
      → Run hs (record { pending = s; held = l.channel ∷ t.held })
  -- `rx.close()`
  closes :
      {hs : List ℕ} {t : Tasks}
      → Run hs t
      → Run hs (record t { pending = record (t.pending) { is_open = false } })
  -- The writer ends early, or never starts, and the queue goes with it.
  loses_queue :
      {hs : List ℕ} {t : Tasks}
      → Run hs t
      → Run hs (record t { pending = drop_receiver none t.pending })
  -- `requests.drain()`
  drains :
      {hs : List ℕ} {t : Tasks}
      → Run hs t
      → Run hs (record {
        pending = record (t.pending) { requests = [] };
        held = channels t.pending.requests ++ t.held;
      })

-- The channel is in this many places: it is held by a task, or stands in the shared parts.
abbrev pub everywhere : ℕ → Tasks → ℕ
everywhere c t = places c t.pending + count c t.held

-- A sender is taken out of those that are held.
count-taken :
    (c : ℕ) (first_part : Option ℕ) (before later held : List ℕ)
    → held ≡ before ++ (drop_sender first_part ++ later)
    → count c held ≡ count c (before ++ later) + extra c first_part
count-taken c first_part before later held e = rw e (
    omega (
      arith,
      count-append c before (drop_sender first_part ++ later),
      count-append c (drop_sender first_part) later,
      count-append c before later,
      count-drop_sender c first_part,
    ))

count-put :
    (c : ℕ) (first_part : Option ℕ) (held : List ℕ)
    → count c (drop_sender first_part ++ held) ≡ extra c first_part + count c held
count-put c first_part held =
    omega (arith, count-append c (drop_sender first_part) held, count-drop_sender c first_part)

send_message-extra :
    (c : ℕ) (msg : List ℕ) (first_part : Option ℕ) (s : Pending)
    → places c (send_message msg first_part s) ≡ places c s + extra c first_part
send_message-extra c msg none s = send_message-places c msg none s
send_message-extra c msg (some k) s = send_message-places c msg (some k) s

dropped-places :
    (c k : ℕ) (s : Pending)
    → places c (record s { cancelled = s.cancelled ++ k ∷ [] }) ≡ places c s + one k c
unfolding places
dropped-places c k s = ground (arith, count-append c s.cancelled (k ∷ []))

closed-places : (c : ℕ) (s : Pending) → places c (record s { is_open = false }) ≡ places c s
unfolding places
closed-places c s = refl

drop_receiver-requests : (s : Pending) → (drop_receiver none s).requests ≡ s.requests
unfolding drop_receiver
drop_receiver-requests s = refl

drop_receiver-places : (c : ℕ) (s : Pending) → places c (drop_receiver none s) ≡ places c s
unfolding drop_receiver places
drop_receiver-places c s = omega (arith, count-append c s.cancelled (queued s.queue))

-- What a channel is handed over to.
abbrev Hands : ℕ → ℕ → Pending → Option ℕ × Pending → Type 0
Hands c k s (first_part, s') =
    HasUniqueIds s'.requests × (places c s' + extra c first_part ≡ places c s + one k c)

inserted-Hands :
    (c : ℕ) (l : PeerRequestListener) (s : Pending)
    → HasUniqueIds s.requests
    → Hands c l.channel s (none, insert_request l s)
inserted-Hands c l s u =
    (insert_request-HasUniqueIds l s u, omega (arith, insert_request-places c l s))

register-Hands :
    (c : ℕ) (id : ℤ) (t : PeerRequestResponseType) (k : ℕ) (s : Pending) (out : Option ℕ × Pending)
    → register id t k s ≡ some out
    → HasUniqueIds s.requests
    → Hands c k s out
unfolding register
register-Hands c id PeerRequestResponseType.none_asked k s out h u = absurd (cc h)
register-Hands c id PeerRequestResponseType.when_sent k s out h u =
    subst (Hands c k s) (some-injective _ _ h) (u, refl)
register-Hands c id PeerRequestResponseType.when_ready k s out h u =
    subst (Hands c k s) (some-injective _ _ h) (inserted-Hands c _ s u)
register-Hands c id PeerRequestResponseType.when_response k s out h u =
    subst (Hands c k s) (some-injective _ _ h) (inserted-Hands c _ s u)
register-Hands c id PeerRequestResponseType.when_closed k s out h u =
    subst (Hands c k s) (some-injective _ _ h) (inserted-Hands c _ s u)

split-places :
    (c : ℕ) (kept : List PeerRequestListener) (l : PeerRequestListener) (s : Pending)
    → count c (channels (l ∷ [])) + count c (channels kept) ≡ count c (channels s.requests)
    → places c (record s { requests = kept }) + one l.channel c ≡ places c s
unfolding places
split-places c kept l s split = ground (arith, split)

removed-places :
    (c : ℕ) (id : ℤ) (s : Pending) (out : PeerRequestListener × Pending)
    → remove_request id s ≡ some out
    → HasUniqueIds s.requests
    → HasUniqueIds out.1.requests × (places c out.1 + one out.0.channel c ≡ places c s)
removed-places c id s out h u = elim (Option-cases (find? (has_id id) s.requests)) [
  | inl unsolicited ↦ absurd (cc (rw (unsolicited, remove_request) at h))
  | inr (l, found) ↦
      let kept = keep (λ k. not (has_id id k)) s.requests in
      let gone : keep (has_id id) s.requests ≡ l ∷ [] = keep-found id l s.requests u found in
      let split : count c (channels (l ∷ [])) + count c (channels kept)
          ≡ count c (channels s.requests) =
        rw gone at (channels-keep (has_id id) s.requests c) in
      subst
        (λ (o : PeerRequestListener × Pending).
          HasUniqueIds o.1.requests × (places c o.1 + one o.0.channel c ≡ places c s))
        (some-injective _ _ (rw (found, remove_request) at h))
        (HasUniqueIds-keep (λ k. not (has_id id k)) s.requests u, split-places c kept l s split)
]

drained-places :
    (c : ℕ) (s : Pending)
    → places c (record s { requests = [] }) + count c (channels s.requests) ≡ places c s
unfolding places
drained-places c s = omega arith

-- However these steps interleave, the ids of the requests in the table are distinct, and a channel stands
-- in as many places as it was made: its sender is in the table, in the queue, held by a task, used for an
-- answer, or dropped. A channel that was made once so stands in exactly one of them: nobody is answered
-- twice, and no sender is lost. The steps are those of registering a request, sending a message, taking
-- one, answering, failing with a sender, removing a listener, closing or losing the queue, and draining
-- the table.
pub Run-everywhere :
    {hs : List ℕ} {t : Tasks}
    → Run hs t
    → HasUniqueIds t.pending.requests × ((c : ℕ) → everywhere c t ≡ count c hs)
Run-everywhere start = (tt, λ c. unfold places in refl)
Run-everywhere (registers {hs} {t} {s} id response_type k first_part run h) =
    let (u, kept) = Run-everywhere run in
    (
      (register-Hands 0 id response_type k t.pending (first_part, s) h u).0,
      λ c. ground (
        arith,
        (register-Hands c id response_type k t.pending (first_part, s) h u).1,
        count-put c first_part t.held,
        kept c,
      ),
    )
Run-everywhere (sends {hs} {t} msg first_part before later run e) =
    let (u, kept) = Run-everywhere run in
    (
      rw (send_message-requests msg first_part t.pending) u,
      λ c. omega (
        arith,
        send_message-extra c msg first_part t.pending,
        count-taken c first_part before later t.held e,
        kept c,
      ),
    )
Run-everywhere (takes {hs} {t} msg first_part queue run e) =
    let (u, kept) = Run-everywhere run in
    (
      u,
      λ c. omega (
        arith,
        unqueue-places c msg first_part queue t.pending e,
        count-put c first_part t.held,
        kept c,
      ),
    )
Run-everywhere (tells {hs} {t} k r before later run e) =
    let (u, kept) = Run-everywhere run in
    (
      u,
      λ c. omega (
        arith,
        told-places c k r t.pending,
        count-taken c (some k) before later t.held e,
        kept c,
      ),
    )
Run-everywhere (drops {hs} {t} k before later run e) =
    let (u, kept) = Run-everywhere run in
    (
      u,
      λ c. omega (
        arith,
        dropped-places c k t.pending,
        count-taken c (some k) before later t.held e,
        kept c,
      ),
    )
Run-everywhere (removes {hs} {t} {s} id l run h) =
    let (u, kept) = Run-everywhere run in
    (
      (removed-places 0 id t.pending (l, s) h u).0,
      λ c. omega (
        arith,
        (removed-places c id t.pending (l, s) h u).1,
        count-put c (some l.channel) t.held,
        kept c,
      ),
    )
Run-everywhere (closes {hs} {t} run) =
    let (u, kept) = Run-everywhere run in (u, λ c. omega (arith, closed-places c t.pending, kept c))
Run-everywhere (loses_queue {hs} {t} run) =
    let (u, kept) = Run-everywhere run in
    (
      rw (drop_receiver-requests t.pending) u,
      λ c. omega (arith, drop_receiver-places c t.pending, kept c),
    )
Run-everywhere (drains {hs} {t} run) =
    let (u, kept) = Run-everywhere run in
    (
      tt,
      λ c. omega (
        arith,
        drained-places c t.pending,
        count-append c (channels t.pending.requests) t.held,
        kept c,
      ),
    )
