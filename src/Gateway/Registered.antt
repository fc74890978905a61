-- ===== src/Gateway/Registered.antt =====
-- The registry agrees with the session objects after any history of connections and callbacks.
use gateway_realtime.Common.{
  if◌then◌else◌, Bool-cases, Option-cases, or_default, map_get, get-set, nat_eq, string_eq, ℕ, ◌≤◌,
  ◌≡◌, refl, sym, ◌∙◌, subst, inl, inr, true, not, none, some, arith,
}
use gateway_realtime.Gateway.Quiet.{
  Quiet, Quiet-refl, Quiet-trans, Quiet-of, KeepsIdentity, update_session-Quiet, clear_timer-Quiet,
}
use gateway_realtime.Registry.{find}
use gateway_realtime.Registry.Indexes.{IsRegistry, register-IsRegistry}
use gateway_realtime.Registry.Unregister.{IsRegistry-same}
use gateway_realtime.Session.{replace, Client, Session, new_session, is_open, is_browser}
use gateway_realtime.SessionManager.{
  bind_client, take_socket, resume_session, drop_old_socket, replace_session, Authenticated,
  create_session, is_suspended, establish_with, establish_session,
}
use gateway_realtime.World.{
  Output, closed, terminated, World, output, update_session, update_client, clear_timer,
}

pub record WorldOk (w : World) : Type 0 where
  pub registered : IsRegistry w.sessions w.registry
  pub fresh : (ref : ℕ) → w.next ≤ ref → map_get ref w.sessions ≡ none

pub Quiet-WorldOk : (w w' : World) → Quiet w w' → WorldOk w → WorldOk w'
Quiet-WorldOk w w' q v = record {
  registered =
      subst (IsRegistry w'.sessions) (sym q.registry)
        (IsRegistry-same w.sessions w'.sessions w.registry q.same v.registered);
  fresh = λ ref h. q.same.gone ref (v.fresh ref (omega (arith, q.next)));
}

pub output-Quiet : (o : Output) (w : World) → Quiet w (output o w)
unfolding output
output-Quiet o w = Quiet-of w _ refl refl (omega arith)

pub update_client-Quiet :
    (client : ℕ) (f : Client → Client) (w : World) → Quiet w (update_client client f w)
update_client-Quiet client f w = Quiet-of w _ refl refl (omega arith)

take_socket-KeepsIdentity : (now client : ℕ) → KeepsIdentity (take_socket now client)
take_socket-KeepsIdentity now client s = (refl, refl, refl)

resume_session-Quiet :
    (now ref : ℕ) (s : Session) (client : ℕ) (w : World)
    → Quiet w (resume_session now ref s client w)
unfolding resume_session
resume_session-Quiet now ref s client w =
    let w1 =
      if is_open w.clients s.socket then output (terminated (or_default s.socket 0)) w else w in
    let first : Quiet w w1 = elim (Bool-cases (is_open w.clients s.socket)) [
      | inl e ↦ rw e (output-Quiet (terminated (or_default s.socket 0)) w)
      | inr e ↦ rw e (Quiet-refl w)
    ] in
    let w2 = clear_timer s.suspend_timer w1 in
    let taken = λ (s : Session). take_socket now client (record s { suspend_timer = none }) in
    let w3 = update_session ref taken w2 in
    Quiet-trans w w1 _ first (
      Quiet-trans w1 w2 _ (clear_timer-Quiet s.suspend_timer w1) (
        Quiet-trans w2 w3 _ (update_session-Quiet ref taken w2 (λ s. (refl, refl, refl)))
          (update_client-Quiet client (bind_client ref (some true)) w3)))

drop_old_socket-Quiet : (ref : ℕ) (s : Session) (w : World) → Quiet w (drop_old_socket ref s w)
unfolding drop_old_socket
drop_old_socket-Quiet ref s w = elim (Bool-cases (is_open w.clients s.socket)) [
  | inl e ↦
      let replaced = λ (s : Session). record s { state = replace; suspend_timer = none } in
      let w1 = update_session ref replaced w in
      let w2 = clear_timer s.suspend_timer w1 in
      rw e (
        Quiet-trans w w1 _ (update_session-Quiet ref replaced w (λ s. (refl, refl, refl))) (
          Quiet-trans w1 w2 _ (clear_timer-Quiet s.suspend_timer w1)
            (output-Quiet (closed (or_default s.socket 0) 1000 "REPLACED") w2)))
  | inr e ↦ rw e (Quiet-refl w)
]

replace_session-Quiet :
    (now ref : ℕ) (s : Session) (client : ℕ) (w : World)
    → Quiet w (replace_session now ref s client w)
unfolding replace_session
replace_session-Quiet now ref s client w =
    let w1 = drop_old_socket ref s w in
    let w2 = update_session ref (take_socket now client) w1 in
    Quiet-trans w w1 _ (drop_old_socket-Quiet ref s w) (
      Quiet-trans w1 w2 _
        (update_session-Quiet ref (take_socket now client) w1
          (take_socket-KeepsIdentity now client))
        (update_client-Quiet client (bind_client ref (some (not (is_browser s.type)))) w2))

create_session-WorldOk :
    (now : ℕ) (a : Authenticated) (client : ℕ) (w : World)
    → find a.id_enduser w.registry ≡ none
    → WorldOk w
    → WorldOk (create_session now a client w)
unfolding create_session find new_session
create_session-WorldOk now a client w unused v = record {
  registered =
      register-IsRegistry w.next
        (new_session now a.id_enduser a.auth a.type a.product (some client)) w.sessions w.registry
        v.registered (v.fresh w.next (omega arith)) unused;
  fresh = λ ref h.
      get-set ref w.next (new_session now a.id_enduser a.auth a.type a.product (some client))
        w.sessions
      ∙ ground (arith, v.fresh ref (omega arith));
}

pub establish_session-WorldOk :
    (now : ℕ) (a : Authenticated) (client : ℕ) (w : World)
    → WorldOk w
    → WorldOk (establish_session now a client w).0
unfolding establish_session establish_with find
establish_session-WorldOk now a client w v =
    elim (Option-cases (map_get a.id_enduser w.registry.sessions)) [
      | inl e ↦ rw e (create_session-WorldOk now a client w e v)
      | inr (ref, e) ↦
          let (s, at, same) = v.registered.named a.id_enduser ref e in
          elim (Bool-cases (is_suspended s.state)) [
            | inl q ↦ rw (e, at, q) (Quiet-WorldOk w _ (resume_session-Quiet now ref s client w) v)
            | inr q ↦ rw (e, at, q) (Quiet-WorldOk w _ (replace_session-Quiet now ref s client w) v)
          ]
    ]
