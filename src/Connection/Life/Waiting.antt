-- ===== src/Connection/Life/Waiting.antt =====
-- What an established connection waits for (src/peer_connection/mod.rs and
-- src/peer_connection/handlers.rs): the task tracker that `handle_connection` and `wait_for_close` wait
-- for is never closed.
use bep_rs.Prelude.{
  ℕ, ◌≡◌, refl, sym, ap, ◌∙◌, subst, not, Bool, false, Option, none, some, List, [], ◌∷◌, ◌++◌,
  keep, find?, arith, Option-cases, Bool-cases, inl, inr,
}
use mathlib.Core.Option.{some-injective}
use bep_rs.Prelude.Int.{ℤ, ◌==ℤ◌}
use bep_rs.Prelude.Outcome.{ok}
use bep_rs.Connection.Items.{Response, PeerConnectionError}
use bep_rs.Connection.Framing.{Wire}
use bep_rs.Connection.Requests.{
  PeerRequestListener, PeerRequestResponse, PeerRequestResponseType, Pending, has_id,
  insert_request, send_message, remove_request, register, handle_response,
}
use bep_rs.Connection.Requests.Places.{==ℤ_sound, send_message-requests}
use bep_rs.Connection.Requests.Conservation.{answer_lem}
use bep_rs.Connection.Reading.{waiting}
use bep_rs.Connection.Writing.{Event, drop_receiver, writing_loop}
use bep_rs.Connection.Writing.Settled.{writing_loop-requests}
use bep_rs.Connection.Life.Tracker.{set_error-is_closed, handle_connection-is_closed}
use bep_rs.State.Monad.{Sql, BepState}
use bep_rs.Connection.Verifier.{Handshake}
use bep_rs.Connection.Life.{
  Environment, handle_connection, Connection, set_error, close_reason, cancel, wait_for_close,
  wait_tracker, conclude,
}

-- What can happen to a connection once its reader and its writer are started, but for responses to the
-- spared ids and other requests of these: the tasks of the program register requests and send messages,
-- other responses come, and panic too once their listener is taken out, the writer works through any
-- events, to its end too, or is gone with the queue, tasks are spawned and end, an error is kept, the
-- connection is cancelled or closed, and the task of `new` looks at the tracker that it waits for.
pub data Later (wire : Wire) (spared : ℤ → Bool) (c : Connection) : Connection → Type 0 where
  now : Later wire spared c c
  registered :
      {d : Connection} (other : ℤ) (t : PeerRequestResponseType) (k : ℕ) (first_part : Option ℕ)
      (s : Pending)
      → Later wire spared c d
      → spared other ≡ false
      → register other t k d.pending ≡ some (first_part, s)
      → Later wire spared c (record d { pending = s })
  messaged :
      {d : Connection} (msg : List ℕ) (first_part : Option ℕ)
      → Later wire spared c d
      → Later wire spared c (record d { pending = send_message msg first_part d.pending })
  responded :
      {d : Connection} (is_waited_for : ℕ → Bool) (r : Response) (s : Pending)
      → Later wire spared c d
      → spared r.id ≡ false
      → handle_response is_waited_for r d.pending ≡ ok s
      → Later wire spared c (record d { pending = s })
  response_panicked :
      {d : Connection} (other : ℤ) (l : PeerRequestListener) (s : Pending)
      → Later wire spared c d
      → spared other ≡ false
      → remove_request other d.pending ≡ some (l, s)
      → Later wire spared c (record d { pending = s })
  loses_queue :
      {d : Connection}
      → Later wire spared c d
      → Later wire spared c (record d { pending = drop_receiver none d.pending })
  wrote :
      {d : Connection} (events : List Event) (written : List ℕ)
      → Later wire spared c d
      → Later wire spared c (record d {
        pending =
            (writing_loop wire events
              (record { pending = d.pending; written = written })).1.pending;
      })
  tracks :
      {d : Connection} (n : ℕ)
      → Later wire spared c d
      → Later wire spared c (record d { tracked = n })
  fails :
      {d : Connection} (e : PeerConnectionError)
      → Later wire spared c d
      → Later wire spared c (set_error e d)
  cancels : {d : Connection} → Later wire spared c d → Later wire spared c (cancel d)
  closes :
      {d : Connection} (answer : Option PeerRequestResponse)
      → Later wire spared c d
      → Later wire spared c (close_reason answer d).1
  looks :
      {d e : Connection} (is_waited_for : ℕ → Bool)
      → Later wire spared c d
      → conclude is_waited_for (ok (wait_tracker d), d) ≡ some e
      → Later wire spared c e

-- The request waits, and the tracker is open.
abbrev pub Waits : ℤ → PeerRequestListener → Connection → Type 0
Waits id l c = (find? (has_id id) c.pending.requests ≡ some l) × (c.is_closed ≡ false)

-- Taking away the requests of another id.
find?-keep_other :
    (id other : ℤ) (xs : List PeerRequestListener)
    → (other ==ℤ id) ≡ false
    → find? (has_id id) (keep (λ k. not (has_id other k)) xs) ≡ find? (has_id id) xs
find?-keep_other id other [] h = refl
find?-keep_other id other (x ∷ xs) h = elim (Bool-cases (has_id other x)) [
  | inl gone ↦
      let same : x.id ≡ other = ==ℤ_sound x.id other gone in
      let not_here : has_id id x ≡ false = subst (λ i. (i ==ℤ id) ≡ false) (sym same) h in
      rw (gone, not_here) (find?-keep_other id other xs h)
  | inr kept ↦ elim (Bool-cases (has_id id x)) [
    | inl here ↦ rw (kept, here) refl
    | inr there ↦ rw (kept, there) (find?-keep_other id other xs h)
  ]
]

find?-append {ℓ} :
    {A : Type ℓ} (p : A → Bool) (xs ys : List A) (a : A)
    → find? p xs ≡ some a
    → find? p (xs ++ ys) ≡ some a
find?-append p [] ys a h = absurd (cc h)
find?-append p (x ∷ xs) ys a h = elim (Bool-cases (p x)) [
  | inl here ↦ rw here (rw here at h)
  | inr there ↦ rw there (find?-append p xs ys a (rw there at h))
]

wait_tracker_open : (c : Connection) → c.is_closed ≡ false → wait_tracker c ≡ waiting
wait_tracker_open c still_open = ground arith

-- The task of `new` waits on.
conclude_open :
    (w : ℕ → Bool) (c c' : Connection)
    → c.is_closed ≡ false
    → conclude w (ok (wait_tracker c), c) ≡ some c'
    → c ≡ c'
unfolding conclude
conclude_open w c c' still_open h =
    let stuck : conclude w (ok (wait_tracker c), c) ≡ some c =
      subst (λ exit. conclude w (ok exit, c) ≡ some c) (sym (wait_tracker_open c still_open))
        refl in
    some-injective _ _ (sym stuck ∙ h)

close_reason-is_closed :
    (answer : Option PeerRequestResponse) (c : Connection)
    → (close_reason answer c).1.is_closed ≡ c.is_closed
unfolding close_reason
close_reason-is_closed none c = refl
close_reason-is_closed (some r) c = refl

module _ (id : ℤ) (l : PeerRequestListener) where
  abbrev IsIn : Pending → Type 0
  IsIn s = find? (has_id id) s.requests ≡ some l

  inserted-IsIn :
      (other : PeerRequestListener) (s : Pending)
      → (other.id ==ℤ id) ≡ false
      → IsIn s
      → IsIn (insert_request other s)
  unfolding insert_request
  inserted-IsIn other s differ there =
      find?-append (has_id id) (keep (λ k. not (has_id other.id k)) s.requests) (other ∷ []) l
        (find?-keep_other id other.id s.requests differ ∙ there)

  register-IsIn :
      (other : ℤ) (t : PeerRequestResponseType) (k : ℕ) (s : Pending) (out : Option ℕ × Pending)
      → (other ==ℤ id) ≡ false
      → IsIn s
      → register other t k s ≡ some out
      → IsIn out.1
  unfolding register
  register-IsIn other PeerRequestResponseType.none_asked k s out differ there h = absurd (cc h)
  register-IsIn other PeerRequestResponseType.when_sent k s out differ there h =
      subst (λ o. IsIn o.1) (some-injective _ _ h) there
  register-IsIn other PeerRequestResponseType.when_ready k s out differ there h =
      subst (λ o. IsIn o.1) (some-injective _ _ h) (inserted-IsIn _ s differ there)
  register-IsIn other PeerRequestResponseType.when_response k s out differ there h =
      subst (λ o. IsIn o.1) (some-injective _ _ h) (inserted-IsIn _ s differ there)
  register-IsIn other PeerRequestResponseType.when_closed k s out differ there h =
      subst (λ o. IsIn o.1) (some-injective _ _ h) (inserted-IsIn _ s differ there)

  handle_response-IsIn :
      (w : ℕ → Bool) (r : Response) (s s' : Pending)
      → (r.id ==ℤ id) ≡ false
      → IsIn s
      → handle_response w r s ≡ ok s'
      → IsIn s'
  unfolding handle_response
  handle_response-IsIn w r s s' differ there h =
      elim (Option-cases (find? (has_id r.id) s.requests)) [
        | inl unsolicited ↦ absurd (cc (rw (unsolicited, handle_response) at h))
        | inr (other, found) ↦
            let kept = keep (λ k. not (has_id r.id k)) s.requests in
            let e =
              answer_lem w r other (record s { requests = kept }) s'
                (rw (found, handle_response) at h) in
            subst IsIn (sym e) (find?-keep_other id r.id s.requests differ ∙ there)
      ]

  remove_request-IsIn :
      (other : ℤ) (s : Pending) (out : PeerRequestListener × Pending)
      → (other ==ℤ id) ≡ false
      → IsIn s
      → remove_request other s ≡ some out
      → IsIn out.1
  remove_request-IsIn other s out differ there h =
      elim (Option-cases (find? (has_id other) s.requests)) [
        | inl missing ↦ absurd (cc (rw (missing, remove_request) at h))
        | inr (l', found) ↦
            subst (λ o. IsIn o.1) (some-injective _ _ (rw (found, remove_request) at h))
              (find?-keep_other id other s.requests differ ∙ there)
      ]

  drop_receiver-IsIn : (s : Pending) → IsIn s → IsIn (drop_receiver none s)
  unfolding drop_receiver
  drop_receiver-IsIn s there = there

  set_error-Waits :
      (e : PeerConnectionError) (c : Connection) → Waits id l c → Waits id l (set_error e c)
  unfolding set_error
  set_error-Waits e c waits = elim (Option-cases c.error) [
    | inl unset ↦ rw (set_error, unset) waits
    | inr (old, is_set) ↦ rw (set_error, is_set) waits
  ]

  close_reason-Waits :
      (answer : Option PeerRequestResponse) (c : Connection)
      → Waits id l c
      → Waits id l (close_reason answer c).1
  unfolding close_reason
  close_reason-Waits none c waits = waits
  close_reason-Waits (some r) c waits = waits

  Later-Waits :
      {wire : Wire} {c d : Connection}
      → Later wire (λ i. i ==ℤ id) c d
      → Waits id l c
      → Waits id l d
  Later-Waits now waits = waits
  Later-Waits (registered {d} other t k first_part s run differ h) waits =
      let (there, still_open) = Later-Waits run waits in
      (register-IsIn other t k d.pending (first_part, s) differ there h, still_open)
  Later-Waits (messaged {d} msg first_part run) waits =
      let (there, still_open) = Later-Waits run waits in
      (ap (find? (has_id id)) (send_message-requests msg first_part d.pending) ∙ there, still_open)
  Later-Waits (responded {d} w r s run differ h) waits =
      let (there, still_open) = Later-Waits run waits in
      (handle_response-IsIn w r d.pending s differ there h, still_open)
  Later-Waits (response_panicked {d} other l' s run differ h) waits =
      let (there, still_open) = Later-Waits run waits in
      (remove_request-IsIn other d.pending (l', s) differ there h, still_open)
  Later-Waits (loses_queue {d} run) waits =
      let (there, still_open) = Later-Waits run waits in
      (drop_receiver-IsIn d.pending there, still_open)
  Later-Waits (wrote {d} events written run) waits =
      let (there, still_open) = Later-Waits run waits in
      (
        ap (find? (has_id id))
              (writing_loop-requests _ 0 events (record { pending = d.pending; written = written }))
            ∙ there,
        still_open,
      )
  Later-Waits (tracks n run) waits = Later-Waits run waits
  Later-Waits (fails {d} e run) waits = set_error-Waits e d (Later-Waits run waits)
  Later-Waits (cancels run) waits = Later-Waits run waits
  Later-Waits (closes {d} answer run) waits = close_reason-Waits answer d (Later-Waits run waits)
  Later-Waits (looks {d} {e} w run h) waits =
      let (there, still_open) = Later-Waits run waits in
      subst (Waits id l) (conclude_open w d e still_open h) (there, still_open)

-- Nothing closes the tracker.
pub Later-open :
    {wire : Wire} {spared : ℤ → Bool} {c d : Connection}
    → Later wire spared c d
    → c.is_closed ≡ false
    → d.is_closed ≡ false
Later-open now is_open = is_open
Later-open (registered other t k first_part s run differ h) is_open = Later-open run is_open
Later-open (messaged msg first_part run) is_open = Later-open run is_open
Later-open (responded w r s run differ h) is_open = Later-open run is_open
Later-open (response_panicked other l s run differ h) is_open = Later-open run is_open
Later-open (loses_queue run) is_open = Later-open run is_open
Later-open (wrote events written run) is_open = Later-open run is_open
Later-open (tracks n run) is_open = Later-open run is_open
Later-open (fails {d} e run) is_open = set_error-is_closed e d ∙ Later-open run is_open
Later-open (cancels run) is_open = Later-open run is_open
Later-open (closes {d} answer run) is_open =
    close_reason-is_closed answer d ∙ Later-open run is_open
Later-open (looks {d} {e} w run h) is_open =
    let still_open = Later-open run is_open in
    ap (λ (k : Connection). k.is_closed) (sym (conclude_open w d e still_open h)) ∙ still_open

pub wait_for_close_open : (c : Connection) → c.is_closed ≡ false → wait_for_close c ≡ none
unfolding wait_for_close
wait_for_close_open c still_open = rw (wait_for_close, still_open) refl

-- A connection is established, with a tracker that is open, as `new` makes it. Then a request that is in
-- its table, after any steps of its tasks, waits on, whatever steps follow but a response to it or another
-- request of its id: closing or cancelling the connection, the end of the writer and of all tasks do not
-- answer it, since `drain_requests` is not reached any more. Nor does `wait_for_close` ever end.
pub Later-waits :
    (S : Sql) (wire : Wire) (env : Environment) (s : BepState S) (server : Bool)
    (handshake : Handshake) (unconnected c e d : Connection) (id : ℤ) (l : PeerRequestListener)
    → unconnected.is_closed ≡ false
    → handle_connection S wire env s server handshake unconnected ≡ (ok waiting, c)
    → Later wire (λ i. false) c e
    → find? (has_id id) e.pending.requests ≡ some l
    → Later wire (λ i. i ==ℤ id) e d
    → (find? (has_id id) d.pending.requests ≡ some l) × (wait_for_close d ≡ none)
Later-waits S wire env s server handshake unconnected c e d id l is_open established run there
      later =
    let c_open : c.is_closed ≡ false =
      ap (λ t. t.1.is_closed) (sym established)
      ∙ handle_connection-is_closed S s wire env server handshake unconnected
      ∙ is_open in
    let (still_there, still_open) = Later-Waits id l later (there, Later-open run c_open) in
    (still_there, wait_for_close_open d still_open)
