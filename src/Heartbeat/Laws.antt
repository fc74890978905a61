-- ===== src/Heartbeat/Laws.antt =====
-- When the heartbeat closes a client that has stopped answering:
-- services/websocket-hearbeat.service.ts.
use gateway_realtime.Common.{
  nat_beq, if◌then◌else◌, nat_beq_iff, Bool-cases, map_get, get-update, filter, append_nil,
  string_eq, nat_eq, ℕ, zero, suc, ◌+◌, ◌<◌, ◌≡◌, refl, ap, ◌∙◌, subst, inl, inr, Bool, true, false,
  Option, none, some, List, [], ◌∷◌, ◌++◌, arith,
}
use gateway_realtime.Heartbeat.{
  Beat, ping, close_it, beat, beat_output, beat_found, beat_each, heartbeat, ponged,
}
use gateway_realtime.Session.{Client}
use gateway_realtime.SessionManager.{get_active_sockets}
use gateway_realtime.World.{
  Output, sent, sent_bytes, closed, terminated, pinged, World, output, update_client,
}

abbrev addressee : Output → ℕ
addressee (sent client message) = client
addressee (sent_bytes client bytes) = client
addressee (closed client code reason) = client
addressee (terminated client) = client
addressee (pinged client) = client

-- What has been done to the socket of one client.
abbrev pub done_to : ℕ → World → List Output
done_to client w = filter (λ o. nat_beq (addressee o) client) w.outputs

abbrev pub times : ℕ → List ℕ → ℕ
times client [] = 0
times client (x ∷ xs) = (if nat_beq x client then 1 else 0) + times client xs

filter-append :
    (p : Output → Bool) (xs ys : List Output) → filter p (xs ++ ys) ≡ filter p xs ++ filter p ys
filter-append p [] ys = refl
filter-append p (x ∷ xs) ys = ground (arith, filter-append p xs ys)

done_to-output :
    (client : ℕ) (o : Output) (w : World)
    → done_to client (output o w)
      ≡ (if nat_beq (addressee o) client then done_to client w ++ o ∷ [] else done_to client w)
unfolding output
done_to-output client o w = elim (Bool-cases (nat_beq (addressee o) client)) [
  | inl same ↦ rw (filter-append, same) refl
  | inr other ↦ rw (filter-append, other) (append_nil (done_to client w))
]

addressee-beat : (client : ℕ) (b : Beat) → addressee (beat_output client b) ≡ client
addressee-beat client ping = refl
addressee-beat client close_it = refl

-- A round does nothing to a client with the socket of another.
beat_found-other :
    (max_missed client other : ℕ) (found : Option Client) (w : World)
    → nat_beq other client ≡ false
    → (map_get client (beat_found max_missed other found w).clients ≡ map_get client w.clients)
      × (done_to client (beat_found max_missed other found w) ≡ done_to client w)
unfolding beat_found
beat_found-other max_missed client other none w n = (refl, refl)
beat_found-other max_missed client other (some c) w n =
    elim (Bool-cases (nat_beq c.ready_state 1)) [
      | inl ready ↦
          let (c', b) = beat max_missed c in
          let w' = update_client other (λ x. c') w in
          rw ready (
            unfold output in ground (arith, get-update client other (λ x. c') w.clients, n),
            done_to-output client (beat_output other b) w' ∙ rw (addressee-beat other b, n) refl,
          )
      | inr shut ↦ rw shut (refl, refl)
    ]

-- A client whose socket is open.
abbrev Open : Client → Type 0
Open c = nat_beq c.ready_state 1 ≡ true

beat_found_self :
    (max_missed client : ℕ) (c : Client) (w : World)
    → map_get client w.clients ≡ some c
    → Open c
    → (map_get client (beat_found max_missed client (some c) w).clients
        ≡ some (beat max_missed c).0)
      × (done_to client (beat_found max_missed client (some c) w)
          ≡ done_to client w ++ beat_output client (beat max_missed c).1 ∷ [])
unfolding beat_found
beat_found_self max_missed client c w e ready =
    let (c', b) = beat max_missed c in
    let w' = update_client client (λ x. c') w in
    rw ready (
      unfold output in ground (arith, get-update client client (λ x. c') w.clients, e),
      done_to-output client (beat_output client b) w' ∙ rw (addressee-beat client b) (ground arith),
    )

beat_each-other :
    (max_missed client : ℕ) (clients : List ℕ) (w : World)
    → times client clients ≡ 0
    → (map_get client (beat_each max_missed clients w).clients ≡ map_get client w.clients)
      × (done_to client (beat_each max_missed clients w) ≡ done_to client w)
unfolding beat_each
beat_each-other max_missed client [] w n = (refl, refl)
beat_each-other max_missed client (x ∷ xs) w n =
    let w' = beat_found max_missed x (map_get x w.clients) w in
    let one = beat_found-other max_missed client x (map_get x w.clients) w (ground (arith, n)) in
    let rest = beat_each-other max_missed client xs w' (ground (arith, n)) in
    (rest.0 ∙ one.0, rest.1 ∙ one.1)

beat_each-once :
    (max_missed client : ℕ) (clients : List ℕ) (c : Client) (w : World)
    → times client clients ≡ 1
    → map_get client w.clients ≡ some c
    → Open c
    → (map_get client (beat_each max_missed clients w).clients ≡ some (beat max_missed c).0)
      × (done_to client (beat_each max_missed clients w)
          ≡ done_to client w ++ beat_output client (beat max_missed c).1 ∷ [])
unfolding beat_each
beat_each-once max_missed client [] c w n e ready = absurd (ground (arith, n))
beat_each-once max_missed client (x ∷ xs) c w n e ready =
    let w' = beat_found max_missed x (map_get x w.clients) w in
    elim (Bool-cases (nat_beq x client)) [
      | inl same ↦
          let here : x ≡ client = (nat_beq_iff x client).0 same in
          let found : map_get x w.clients ≡ some c = ap (λ k. map_get k w.clients) here ∙ e in
          let self = beat_found_self max_missed client c w e ready in
          let now : w' ≡ beat_found max_missed client (some c) w = rw (found, here) refl in
          let rest = beat_each-other max_missed client xs w' (ground (arith, n, same)) in
          (
            rest.0 ∙ ap (λ v. map_get client v.clients) now ∙ self.0,
            rest.1 ∙ ap (λ v. done_to client v) now ∙ self.1,
          )
      | inr other ↦
          let one = beat_found-other max_missed client x (map_get x w.clients) w other in
          let rest =
            beat_each-once max_missed client xs c w' (ground (arith, n, other)) (one.0 ∙ e) ready in
          (rest.0, rest.1 ∙ ap (λ os. os ++ beat_output client (beat max_missed c).1 ∷ []) one.1)
    ]

-- The client's socket is one of the active ones, once.
abbrev pub Listed : ℕ → World → Type 0
Listed client w = times client (get_active_sockets w) ≡ 1

-- A world after a pong of the client and that many rounds with none. What else happens between the
-- rounds leaves the client as it is.
pub data WithoutPong (max_missed client : ℕ) : ℕ → World → Type 0 where
  heard :
      {w : World} (c : Client)
      → c.ready_state ≡ 1
      → map_get client w.clients ≡ some (ponged c)
      → WithoutPong max_missed client 0 w
  unheard :
      {n : ℕ} {w w' : World}
      → WithoutPong max_missed client n w
      → n < max_missed
      → Listed client w
      → map_get client w'.clients ≡ map_get client (heartbeat max_missed w).clients
      → WithoutPong max_missed client (suc n) w'

-- What is known of the client after so many rounds.
abbrev Missed : ℕ → Client → Type 0
Missed zero c = (c.is_alive ≡ true) × (c.missed_pongs ≡ 0)
Missed (suc n) c = (c.is_alive ≡ false) × (c.missed_pongs ≡ n)

Missed-beat :
    (max_missed n : ℕ) (c : Client)
    → n < max_missed
    → Missed n c
    → Missed (suc n) (beat max_missed c).0
      × ((beat max_missed c).1 ≡ ping)
      × ((beat max_missed c).0.ready_state ≡ c.ready_state)
unfolding beat
Missed-beat max_missed zero c h m = ground (arith, m.0, m.1)
Missed-beat max_missed (suc n) c h m = ground (arith, m.0, m.1, h)

Missed-close :
    (max_missed : ℕ) (c : Client)
    → 0 < max_missed
    → Missed max_missed c
    → (beat max_missed c).1 ≡ close_it
unfolding beat
Missed-close zero c h m = absurd (omega (arith, h))
Missed-close (suc n) c h m = ground (arith, m.0, m.1)

WithoutPong-Missed :
    {max_missed client n : ℕ} {w : World}
    → WithoutPong max_missed client n w
    → (c : Client) × ((map_get client w.clients ≡ some c) × (Open c × Missed n c))
unfolding heartbeat
WithoutPong-Missed (heard c ready e) =
    unfold ponged in (ponged c, (e, (ground (arith, ready), (refl, refl))))
WithoutPong-Missed {max_missed} {client} (unheard {n} {w} s h once same) =
    let (c, (e, (ready, m))) = WithoutPong-Missed s in
    let round = beat_each-once max_missed client (get_active_sockets w) c w once e ready in
    let (m', p, kept) = Missed-beat max_missed n c h m in
    ((beat max_missed c).0, (same ∙ round.0, (ap (λ r. nat_beq r 1) kept ∙ ready, m')))

-- If no pong comes after one, each of the first `max_missed` rounds does one thing to the client's
-- socket, a ping, and the next round closes it with 1001 and does nothing else to it; if the limit is
-- not 0, the socket is open at the pong and listed once among the active ones at each round, and
-- nothing but the rounds changes the client.
pub silent_client_closed :
    {max_missed client n : ℕ} {w : World}
    → 0 < max_missed
    → WithoutPong max_missed client n w
    → Listed client w
    → (n < max_missed
        → done_to client (heartbeat max_missed w) ≡ done_to client w ++ pinged client ∷ [])
      × (n ≡ max_missed
          → done_to client (heartbeat max_missed w)
            ≡ done_to client w ++ closed client 1001 "Heartbeat timeout" ∷ [])
unfolding heartbeat
silent_client_closed {max_missed} {client} {n} {w} positive s once =
    let (c, (e, (ready, m))) = WithoutPong-Missed s in
    let round = beat_each-once max_missed client (get_active_sockets w) c w once e ready in
    (
      λ h.
          round.1
          ∙ ap (λ b. done_to client w ++ beat_output client b ∷ [])
              (Missed-beat max_missed n c h m).1,
      λ h.
          round.1
          ∙ ap (λ b. done_to client w ++ beat_output client b ∷ [])
              (Missed-close max_missed c positive (subst (λ k. Missed k c) h m)),
    )
